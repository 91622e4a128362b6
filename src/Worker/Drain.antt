-- ===== src/Worker/Drain.antt =====
-- A worker whose connection holds works off whatever is queued.
use onion_architecture.Base.{ℕ, zero, suc, ◌+◌, ◌≡◌, refl, ap, List, [], ◌∷◌, ◌++◌, arith, subst}
use onion_architecture.Base.Rows.Sweep.{length}
use onion_architecture.World.{World}
use onion_architecture.World.Env.{Env}
use onion_architecture.Worker.{
  HasRoom, Message, Verdict, processed, invalid, failed, handle_message, Work, settle_by, deliver,
  settle, Run, here, next,
}

-- One message after another, the k-th at its own time.
unfoldable pub drain : (ℕ → Env) → ℕ → List Message → Work → Work
drain env k [] s = s
drain env k (m ∷ ms) s =
    drain env (suc k) ms
      (settle_by m [] (record s { ready = ms }) (handle_message (env k) m s.world))

record Settled (m : Message) (ms : List Message) (s t : Work) : Type 0 where
  ready : t.ready ≡ ms
  unacked : t.unacked ≡ []
  more : length t.acked + length t.dead ≡ length s.acked + length s.dead + 1

settle_by-Settled :
    (m : Message) (ms : List Message) (s : Work) (x : Verdict × World)
    → Settled m ms s (settle_by m [] (record s { ready = ms }) x)
settle_by-Settled m ms s (processed, w) = record {
  ready = refl;
  unacked = refl;
  more = omega arith;
}
settle_by-Settled m ms s (invalid, w) = record { ready = refl; unacked = refl; more = omega arith }
settle_by-Settled m ms s (failed, w) = record { ready = refl; unacked = refl; more = omega arith }

-- Nothing is queued or out any more, and all of it is settled.
pub record Drains (prefetch : ℕ) (s t : Work) : Type 0 where
  pub run : Run prefetch s t
  pub ready : t.ready ≡ []
  pub unacked : t.unacked ≡ []
  pub settled : length t.acked + length t.dead ≡ length s.acked + length s.dead + length s.ready

run_append : {p : ℕ} {s t u : Work} → Run p s t → Run p t u → Run p s u
run_append r here = r
run_append r (next q st) = next (run_append r q) st

-- What is out while a message is settled is written anew.
settle_by-unacked_of :
    (m : Message) (us : List Message) (s : Work) (x : Verdict × World)
    → settle_by m [] (record s { unacked = us }) x ≡ settle_by m [] s x
settle_by-unacked_of m us s (processed, w) = refl
settle_by-unacked_of m us s (invalid, w) = refl
settle_by-unacked_of m us s (failed, w) = refl

has_room : (p : ℕ) → HasRoom p 0
has_room zero = tt
has_room (suc p) = omega arith

two_steps :
    (p : ℕ) (env : Env) (m : Message) (ms : List Message) (s : Work)
    → s.ready ≡ m ∷ ms
    → s.unacked ≡ []
    → Run p s (settle_by m [] (record s { ready = ms }) (handle_message env m s.world))
two_steps p env m ms s e u =
    subst (λ t. Run p s t)
      (settle_by-unacked_of m (s.unacked ++ m ∷ []) (record s { ready = ms })
        (handle_message env m s.world))
      (next (next here (deliver m ms s e (rw u (has_room p)))) (settle m [] [] env _ (rw u refl)))

drains :
    (p : ℕ) (env : ℕ → Env) (ms : List Message) (k : ℕ) (s : Work)
    → s.ready ≡ ms
    → s.unacked ≡ []
    → Drains p s (drain env k ms s)
unfolding drain
drains p env [] k s e u = record {
  run = here;
  ready = e;
  unacked = u;
  settled = omega (arith, ap length e);
}
drains p env (m ∷ ms) k s e u =
    let x = handle_message (env k) m s.world in
    let d = settle_by-Settled m ms s x in
    let rest = drains p env ms (suc k) _ d.ready d.unacked in
    record {
      run = run_append (two_steps p (env k) m ms s e u) rest.run;
      ready = rest.ready;
      unacked = rest.unacked;
      settled = omega (arith, rest.settled, d.more, ap length e, ap length d.ready);
    }

-- With any prefetch, where nothing is out, working off the messages in their order is a run of
-- the worker that ends with an empty queue, nothing out, and as many more messages settled as
-- were queued, whatever each of them holds.
pub drain-Drains :
    (p : ℕ) (env : ℕ → Env) (k : ℕ) (s : Work) → s.unacked ≡ [] → Drains p s (drain env k s.ready s)
drain-Drains p env k s u = drains p env s.ready k s refl u
