-- ===== src/Transcript/Complete.antt =====
-- The transcript of a session against what Felix writes: kernel/client.py, session.py and
-- persistence.py together.
use mathlib.Core.List.{append_assoc, append-nil}
use astraship.Base.{
  ℕ, String, ◌≡◌, ◌≢◌, refl, ◌∙◌, sym, ap, subst, inl, inr, true, false, List, [], ◌∷◌, ◌++◌, map,
  every, arith,
}
use astraship.Base.Int.{pos}
use astraship.Base.Text.{has_char}
use astraship.Errors.{ok}
use astraship.Value.Json.{Json, IsJson}
use astraship.Persistence.{is_safe_session_id, read}
use astraship.Session.{Notification, finished, open_session}
use astraship.Session.Delivery.{
  accepted, arrives, demultiplexes, consumes, closes, System, start, Event as SessionEvent,
  step as session_step, run as session_run,
}
use astraship.Session.Delivery.Mirror.{run-Mirror}
use astraship.Kernel.Client.Server.{World}
use astraship.Kernel.Client.Reader.{Connection, new_queue, subscribe, unsubscribe, take_from}
use astraship.Kernel.Client.Reader.Queues.{subscribe-reading}
use astraship.Kernel.Client.Reader.Delivery.{arrivals, published, published-step}
use astraship.Transcript.{
  Pipeline, Task, client_runs, demux_runs, consumer_runs, session_closes, opened, arrive, perform,
  perform_all, client_events, demux_takes,
}
use astraship.Transcript.Queue.{unbounded}
use astraship.Transcript.Linked.{Linked, Alive, brings, keeps, perform-Alive}

-- The steps of the session in a task.
abbrev session_steps : World → Pipeline → Task → List SessionEvent
session_steps w y (client_runs e) = map arrives (arrivals w.json y.connection e)
session_steps w y (demux_runs io) = demultiplexes io ∷ []
session_steps w y consumer_runs = consumes ∷ []
session_steps w y session_closes = closes ∷ []

session_run-append :
    (json : Json) (s : System) (es fs : List SessionEvent)
    → session_run json s (es ++ fs) ≡ session_run json (session_run json s es) fs
unfolding session_run
session_run-append json s [] fs = refl
session_run-append json s (e ∷ es) fs = session_run-append json (session_step json s e) es fs

perform-session :
    (w : World) (y : Pipeline) (t : Task)
    → session_run w.json y.system (session_steps w y t) ≡ (perform w y t).system
unfolding perform arrive session_run
perform-session w y (client_runs e) = refl
perform-session w y (demux_runs io) = refl
perform-session w y consumer_runs = refl
perform-session w y session_closes = refl

-- The session of a pipeline runs as one alone, for some order of its steps.
perform_all-session :
    (w : World) (y : Pipeline) (ts : List Task)
    → (es : List SessionEvent) × (session_run w.json y.system es ≡ (perform_all w y ts).system)
unfolding perform_all session_run
perform_all-session w y [] = ([], refl)
perform_all-session w y (t ∷ ts) =
    let (es, p) = perform_all-session w (perform w y t) ts in
    (
      session_steps w y t ++ es,
      session_run-append w.json y.system (session_steps w y t) es
          ∙ ap (λ s. session_run w.json s es) (perform-session w y t)
          ∙ p,
    )

brings-published :
    (w : World) (y : Pipeline) (t : Task) (ts : List Task)
    → brings w y t ++ published w.json (perform w y t).connection.reading (client_events ts)
      ≡ published w.json y.connection.reading (client_events (t ∷ ts))
unfolding perform client_events demux_takes unsubscribe take_from
brings-published w y (client_runs e) ts = sym (published-step w y.connection e (client_events ts))
brings-published w y (demux_runs io) ts =
    ap (λ b. published w.json b (client_events ts)) (ground arith)
brings-published w y consumer_runs ts = refl
brings-published w y session_closes ts =
    ap (λ b. published w.json b (client_events ts)) (ground arith)

perform-queue : (w : World) (y : Pipeline) (t : Task) → (perform w y t).queue ≡ y.queue
unfolding perform
perform-queue w y (client_runs e) = refl
perform-queue w y (demux_runs io) = refl
perform-queue w y consumer_runs = refl
perform-queue w y session_closes = refl

perform_all-Alive :
    (w : World) (y : Pipeline) (all : List Notification) (ts : List Task)
    → every (keeps y.queue) ts ≡ true
    → Alive y all
    → Alive (perform_all w y ts) (all ++ published w.json y.connection.reading (client_events ts))
unfolding perform_all
perform_all-Alive w y all [] k v =
    subst (Alive y) (sym (append-nil all) ∙ ap (◌++◌ all) (unfold published client_events in refl))
      v
perform_all-Alive w y all (t ∷ ts) k v =
    subst (Alive (perform_all w (perform w y t) ts))
      (append_assoc all (brings w y t) _ ∙ ap (◌++◌ all) (brings-published w y t ts))
      (perform_all-Alive w (perform w y t) (all ++ brings w y t) ts
        (ap (λ n. every (keeps n) ts) (perform-queue w y t) ∙ ground (arith, k))
        (perform-Alive w y all t (ground (arith, k)) v))

opened-Linked :
    (s : String) (size : ℕ) (c : Connection)
    → c.system.client.closed ≡ false
    → Linked (opened s size c) []
unfolding opened subscribe new_queue start open_session
opened-Linked s size c h = record {
  subscribed = refl;
  active = refl;
  queued = record { there = ground (arith, h); old = ground (arith, h) };
  seen = refl;
}

pub opened-Alive :
    (w : World) (s : String) (size : ℕ) (c : Connection) (ts : List Task)
    → c.system.client.closed ≡ false
    → every (keeps c.next_subscriber) ts ≡ true
    → Alive (perform_all w (opened s size c) ts) (published w.json c.reading (client_events ts))
unfolding opened
opened-Alive w s size c ts listening k =
    subst (Alive (perform_all w (opened s size c) ts))
      (ap (λ b. published w.json b (client_events ts)) (subscribe-reading (pos 0) c))
      (perform_all-Alive w (opened s size c) [] ts k (inr (opened-Linked s size c listening)))

-- The queue of the client is what the session waits for, with what it has taken; the two together are
-- these notifications; and the transcript reads back as the events of the session among the ones
-- taken.
pub record Carries (json : Json) (s : String) (y : Pipeline) (all : List Notification)
    : Type 0 where
  pub shared :
      y.connection.subscribers y.queue ≡ unbounded y.system.processed y.system.session.event_queue
  pub in_order : y.system.processed ++ y.system.session.event_queue ≡ all
  pub stored : read json y.system.session.disk s ≡ ok (accepted s y.system.processed)

-- A session that is created on an open client, with an empty store, keeps a transcript of what Felix
-- writes, in every interleaving of the reader, the demultiplexer (whose writes may fail), the consumer
-- of the session and other subscribers: the notifications, but for the cancellations, in the lines
-- that are read from then on, up to the first line that is no message, are those that the
-- demultiplexer has taken and then those that wait in its queue; and the transcript reads back as the events of the session among the ones
-- taken, in order. This holds as long as the session is not closed, no one else takes from its queue
-- or gives it up, and the demultiplexer has not ended by an error.
pub perform_all-Carries :
    (w : World)
    → IsJson w.json
    → (s : String) (size : ℕ) (c : Connection) (ts : List Task) → c.system.client.closed ≡ false
    → is_safe_session_id s ≡ true
    → has_char 0 s ≡ false
    → every (keeps c.next_subscriber) ts ≡ true
    → (perform_all w (opened s size c) ts).system.session.demux ≢ finished
    → Carries w.json s
        (perform_all w (opened s size c) ts)
        (published w.json c.reading (client_events ts))
unfolding opened
perform_all-Carries w laws s size c ts listening safe null k alive =
    elim (opened-Alive w s size c ts listening k) [
      | inl f ↦ absurd (alive f)
      | inr h ↦
          let (es, p) = perform_all-session w (opened s size c) ts in
          record {
            shared = h.queued.there;
            in_order = h.seen;
            stored =
                ap (λ (z : System). read w.json z.session.disk s) (sym p)
                ∙ run-Mirror w.json laws s size es safe null
                    (λ f. alive (ap (λ (z : System). z.session.demux) (sym p) ∙ f))
                ∙ ap (λ (z : System). ok (accepted s z.processed)) p;
          }
    ]
