-- ===== src/Transcript/Drains.antt =====
-- The end of the queue of a session (session.py), and its transcript then.
use mathlib.Core.List.{append-nil}
use astraship.Base.{
  ℕ, suc, ◌≤◌, String, ◌≡◌, ◌≢◌, refl, ◌∙◌, sym, ap, ◌⊎◌, inl, inr, true, false, List, [], ◌∷◌,
  ◌++◌, map, every, arith, length,
}
use astraship.Base.Text.{has_char}
use astraship.Errors.{ok}
use astraship.Value.Json.{Json, IsJson}
use astraship.Persistence.{WriteOutcome, is_safe_session_id, read}
use astraship.Session.{
  Notification, TaskStatus, running, finished, cancelled, Session, handle_notification, demultiplex,
}
use astraship.Session.Delivery.{accepted, step as session_step}
use astraship.Session.Delivery.Cases.{Cases, handle_notification-Cases}
use astraship.Session.Delivery.Order.{demultiplex_busy, demultiplex_idle, work-cases}
use astraship.Kernel.Client.Server.{World}
use astraship.Kernel.Client.Reader.{Connection}
use astraship.Kernel.Client.Reader.Delivery.{published}
use astraship.Transcript.{
  Pipeline, Task, client_runs, demux_runs, consumer_runs, session_closes, opened, perform,
  perform_all, client_events,
}
use astraship.Transcript.Linked.{Alive, keeps, perform-Alive}
use astraship.Transcript.Complete.{opened-Alive, perform_all-Carries}

-- A round of the demultiplexer that is not idle takes one notification, however it ends.
Cases-waiting :
    (json : Json) (s : Session) (m : Notification) (r : Session)
    → Cases json s m r
    → r.event_queue ≡ s.event_queue
Cases-waiting json s m r (inl c) = ap (λ x. x.event_queue) c.unchanged
Cases-waiting json s m r (inr (inl c)) = ap (λ x. x.event_queue) c.result
Cases-waiting json s m r (inr (inr c)) = ap (λ x. x.event_queue) c.result

demultiplex-waiting :
    (json : Json) (io : WriteOutcome) (s : Session) (k : ℕ)
    → s.demux ≡ running
    → length s.event_queue ≤ suc k
    → length (demultiplex json io s).event_queue ≤ k
demultiplex-waiting json io s k active h = elim (work-cases s) [
  | inl (inl idle) ↦ absurd (idle active)
  | inl (inr empty) ↦
      let same =
        ap (λ x. length x.event_queue) (demultiplex_idle json io s (inr empty)).0
        ∙ ap length empty in
      omega (arith, same)
  | inr (_, m, rest, queue) ↦
      let t : Session = record s { event_queue = rest } in
      let after =
        ap (λ x. length x.event_queue) (demultiplex_busy json io s m rest active queue).0
        ∙ ap length (
            Cases-waiting json t m (handle_notification json io t m)
              (handle_notification-Cases json io t m)) in
      omega (arith, after, h, ap length queue)
]

stays_finished :
    (w : World) (y : Pipeline) (ios : List WriteOutcome)
    → y.system.session.demux ≡ finished
    → (perform_all w y (map demux_runs ios)).system.session.demux ≡ finished
unfolding perform_all perform session_step
stays_finished w y [] f = f
stays_finished w y (io ∷ ios) f =
    stays_finished w (perform w y (demux_runs io)) ios (
      ap (λ x. x.demux) (demultiplex_idle w.json io y.system.session (inl (λ r. absurd (cc)))).0
      ∙ f)

-- After as many rounds the demultiplexer has ended by an error, or nothing waits.
drains :
    (w : World) (y : Pipeline) (all : List Notification) (ios : List WriteOutcome)
    → Alive y all
    → length y.system.session.event_queue ≤ length ios
    → ((perform_all w y (map demux_runs ios)).system.session.demux ≡ finished)
      ⊎ ((perform_all w y (map demux_runs ios)).system.session.event_queue ≡ [])
unfolding perform_all perform session_step
drains w y all ios (inl f) h = inl (stays_finished w y ios f)
drains w y all [] (inr l) h = inr (from y.system.session.event_queue h)
  where
    from : (q : List Notification) → length q ≤ 0 → q ≡ []
    from [] h = refl
    from (m ∷ q) h = absurd (omega (arith, h))
drains w y all (io ∷ ios) (inr l) h =
    drains w (perform w y (demux_runs io)) (all ++ []) ios
      (perform-Alive w y all (demux_runs io) refl (inr l))
      (demultiplex-waiting w.json io y.system.session (length ios) l.active (omega (arith, h)))

perform_all-append :
    (w : World) (y : Pipeline) (ts us : List Task)
    → perform_all w y (ts ++ us) ≡ perform_all w (perform_all w y ts) us
unfolding perform_all
perform_all-append w y [] us = refl
perform_all-append w y (t ∷ ts) us = perform_all-append w (perform w y t) ts us

rounds-keep :
    (n : ℕ) (ts : List Task) (ios : List WriteOutcome)
    → every (keeps n) ts ≡ true
    → every (keeps n) (ts ++ map demux_runs ios) ≡ true
rounds-keep n [] [] k = refl
rounds-keep n [] (io ∷ ios) k = rounds-keep n [] ios refl
rounds-keep n (t ∷ ts) ios k = ground (arith, k, rounds-keep n ts ios (ground (arith, k)))

rounds-client_events :
    (ts : List Task) (ios : List WriteOutcome)
    → client_events (ts ++ map demux_runs ios) ≡ client_events ts
unfolding client_events
rounds-client_events [] [] = refl
rounds-client_events [] (io ∷ ios) = rounds-client_events [] ios
rounds-client_events (client_runs e ∷ ts) ios = ap (◌∷◌ e) (rounds-client_events ts ios)
rounds-client_events (demux_runs io ∷ ts) ios = rounds-client_events ts ios
rounds-client_events (consumer_runs ∷ ts) ios = rounds-client_events ts ios
rounds-client_events (session_closes ∷ ts) ios = rounds-client_events ts ios

finished-or_not : (t : TaskStatus) → (t ≡ finished) ⊎ (t ≢ finished)
finished-or_not finished = inl refl
finished-or_not running = inr (λ e. cc)
finished-or_not cancelled = inr (λ e. cc)

-- After any run of a session with an empty store on an open client, in which the session is not
-- closed and its queue is left to it, as many further rounds of the demultiplexer as notifications
-- wait end in one of two ways, whatever their writes do. Either the demultiplexer has ended by an
-- error, or the transcript reads back as the events of the session among all the notifications in the
-- lines that were read since it was created, in order, up to the first line that is no message.
pub perform_all-Drains :
    (w : World)
    → IsJson w.json
    → (s : String) (size : ℕ) (c : Connection) (ts : List Task) (ios : List WriteOutcome)
    → c.system.client.closed ≡ false
    → is_safe_session_id s ≡ true
    → has_char 0 s ≡ false
    → every (keeps c.next_subscriber) ts ≡ true
    → length (perform_all w (opened s size c) ts).system.session.event_queue ≤ length ios
    → ((perform_all w (opened s size c) (ts ++ map demux_runs ios)).system.session.demux ≡ finished)
      ⊎ (read w.json
            (perform_all w (opened s size c) (ts ++ map demux_runs ios)).system.session.disk
            s
          ≡ ok (accepted s (published w.json c.reading (client_events ts))))
perform_all-Drains w laws s size c ts ios listening safe null k enough =
    elim (finished-or_not z.system.session.demux) [
      | inl f ↦ inl f
      | inr alive ↦
          let carried =
            perform_all-Carries w laws s size c (ts ++ map demux_runs ios) listening safe null
              (rounds-keep c.next_subscriber ts ios k) alive in
          elim (drains w y _ ios (opened-Alive w s size c ts listening k) enough) [
            | inl f ↦ absurd (alive (ap (λ x. x.system.session.demux) split ∙ f))
            | inr empty ↦ inr (
                carried.stored
                ∙ ap (λ ns. ok (accepted s ns))
                    (sym (append-nil z.system.processed)
                      ∙ ap (◌++◌ z.system.processed)
                          (sym (ap (λ x. x.system.session.event_queue) split ∙ empty))
                      ∙ carried.in_order
                      ∙ ap (published w.json c.reading) (rounds-client_events ts ios)))
          ]
    ]
  where
    y : Pipeline
    y = perform_all w (opened s size c) ts

    z : Pipeline
    z = perform_all w (opened s size c) (ts ++ map demux_runs ios)

    split : z ≡ perform_all w y (map demux_runs ios)
    split = perform_all-append w (opened s size c) ts (map demux_runs ios)
