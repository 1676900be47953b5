-- ===== src/EmbeddedClient/Polling/Ends.antt =====
-- The loop of `poll_batch` over the frames of one read.
use mqtt_async_embedded.Prelude.{ℕ, ◌+◌, ◌≡◌, refl, sym, ap, ◌∙◌, Option, List, [], ◌∷◌, length}
use mqtt_async_embedded.Exec.{Result, ok, err, panic}
use mqtt_async_embedded.Frames.{new_iter, take_items}
use mqtt_async_embedded.Frames.Ends.{until_error, new_iter_left, take_items-until_error}
use mqtt_async_embedded.EmbeddedClient.{Platform, Outcome, done, failed, panics, MqttClient, after}
use mqtt_async_embedded.EmbeddedClient.Polling.{
  MqttEvent, push_event, decode_frame_of, batch_frames,
}

module _ {T E : Type 0} (p : Platform T E) (N most : ℕ) where
  -- Past the first error the loop reads nothing.
  batch_frames-until_error :
      (frames : List (Result (List ℕ))) (events : List MqttEvent) (c : MqttClient T)
      → batch_frames p N most (until_error frames) events c ≡ batch_frames p N most frames events c
  unfolding batch_frames until_error
  batch_frames-until_error [] events c = refl
  batch_frames-until_error (err e ∷ frames) events c = refl
  batch_frames-until_error (panic ∷ frames) events c = refl
  batch_frames-until_error (ok frame ∷ frames) events c =
      go (decode_frame_of p N (ok frame) c)
        (λ event. batch_frames-until_error frames (push_event p N most events event))
    where
      go :
          (r : Outcome E (Option MqttEvent) × MqttClient T)
          → ((event : Option MqttEvent) (d : MqttClient T)
              → batch_frames p N most (until_error frames) (push_event p N most events event) d
                ≡ batch_frames p N most frames (push_event p N most events event) d)
          → after r (λ event.
            batch_frames p N most (until_error frames) (push_event p N most events event))
            ≡ after r (λ event. batch_frames p N most frames (push_event p N most events event))
      go (done event, d) ih = ih event d
      go (failed e, d) ih = refl
      go (panics, d) ih = refl

  -- The loop over the frames of a read ends within as many rounds as the read has bytes: with more
  -- rounds it answers the same, and leaves the same client.
  pub batch_frames_ends :
      (k : ℕ) (read : List ℕ) (events : List MqttEvent) (c : MqttClient T)
      → batch_frames p N most (take_items (length read + k) (new_iter read)) events c
        ≡ batch_frames p N most (take_items (length read) (new_iter read)) events c
  batch_frames_ends k read events c =
      let n = length read in
      let it = new_iter read in
      sym (batch_frames-until_error (take_items (n + k) it) events c)
      ∙ ap (λ frames. batch_frames p N most frames events c)
          (take_items-until_error n k it (new_iter_left read))
      ∙ batch_frames-until_error (take_items n it) events c
