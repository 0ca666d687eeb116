-- ===== src/Api/Timeout.antt =====
-- thirdpart/https/ApiServer.h, `ConnBucket`: it is a wheel like that of the gate.
use cppserver.Prelude.{
  ℕ, ◌<◌, ◌≡◌, refl, true, false, not, ◌||◌, List, [], ◌∷◌, Option, none, some, ◌>>=◌, ltb, arith,
  Option-cases, Bool-cases, inl, inr, sym, ap, ◌∙◌,
}
use mathlib.Core.Option
use mathlib.Core.Option.{some-injective}
use cppserver.Prelude.Int.{ℤ, pos}
use cppserver.Gate.World.{World, lock}
use cppserver.Gate.Buckets.{
  Buckets, Loop, init, pop, push_back, push, update, held, insert_back as gate_insert_back,
}
use cppserver.Gate.Buckets.Timeout.{
  Event, ticks, pushes, updates, during, age, held-run, step as gate_step, run as gate_run,
}
use cppserver.Api.{ConnBucket, init_bucket, on_timer, insert_back, push_bucket, update_bucket}

unfoldable pub step : Loop → Event → ConnBucket → Option ConnBucket
step l ticks b = some (on_timer b)
step l (pushes e) b = push_bucket l e b
step l (updates e) b = update_bucket l e b

unfoldable pub run : Loop → List (World × Event) → ConnBucket → Option ConnBucket
run l [] b = some b
run l (ev ∷ es) b = step (during l ev.0) ev.1 b >>= run l es

-- The wheel of the gate with the same buckets, which ticks each second.
wheel : ConnBucket → Buckets
wheel b = record { interval = pos 1; capacity = b.capacity; buckets = b.buckets }

insert_back-wheel :
    (e : ℕ) (b : ConnBucket) (bs : List (List ℕ))
    → b.buckets ≡ bs
    → Option.map wheel (insert_back e b) ≡ gate_insert_back e (wheel b)
unfolding insert_back gate_insert_back wheel
insert_back-wheel e b [] h = rw (h, insert_back, gate_insert_back) refl
insert_back-wheel e b (bucket ∷ older) h = rw (h, insert_back, gate_insert_back) refl

push-wheel :
    (l : Loop) (e : Option ℕ) (b : ConnBucket)
    → Option.map wheel (push_bucket l e b) ≡ push l e (wheel b)
unfolding push_bucket push
push-wheel l none b = refl
push-wheel l (some e) b = elim (Option-cases (lock l.world (l.weak_conn e))) [
  | inl dead ↦ rw (dead, push_bucket, push) refl
  | inr (c, live) ↦ elim (Bool-cases (not l.debug || l.on_loop c)) [
    | inl home ↦ rw (live, push_bucket, push, home) (insert_back-wheel e b b.buckets refl)
    | inr away ↦ rw (live, push_bucket, push, away) refl
  ]
]

step-wheel :
    (l : Loop) (ev : Event) (b : ConnBucket)
    → Option.map wheel (step l ev b) ≡ gate_step l ev (wheel b)
unfolding step gate_step
step-wheel l ticks b = unfold on_timer pop push_back wheel in refl
step-wheel l (pushes e) b = push-wheel l e b
step-wheel l (updates none) b = unfold update_bucket update in refl
step-wheel l (updates (some e)) b =
    unfold update_bucket update push_bucket push in (push-wheel l (some e) b)

run-wheel :
    (l : Loop) (es : List (World × Event)) (b : ConnBucket)
    → Option.map wheel (run l es b) ≡ gate_run l es (wheel b)
unfolding run gate_run
run-wheel l [] b = refl
run-wheel l (ev ∷ es) b = elim (Option-cases (step (during l ev.0) ev.1 b)) [
  | inl failed ↦
      let too : gate_step (during l ev.0) ev.1 (wheel b) ≡ none =
        sym (step-wheel (during l ev.0) ev.1 b) ∙ ap (Option.map wheel) failed in
      rw (failed, too) refl
  | inr (b1, done) ↦
      let too : gate_step (during l ev.0) ev.1 (wheel b) ≡ some (wheel b1) =
        sym (step-wheel (during l ev.0) ev.1 b) ∙ ap (Option.map wheel) done in
      rw (done, too) (run-wheel l es b1)
]

-- The wheel of the HTTP server, of at least one bucket, whose connections run on its loop (or in
-- a release build), after any events, while connections live and die between them as they like:
-- no step faults, and an entry is held exactly if fewer ticks than the wheel has buckets have
-- passed since it was last pushed or updated with its connection alive at that time.
pub held_api-run :
    (l : Loop) (e : ℕ) (es : List (World × Event)) (index : ℤ) (size : ℕ)
    → ((c : ℕ) → (not l.debug || l.on_loop c) ≡ true)
    → 0 < size
    → (b : ConnBucket) × (run l es (init_bucket index size) ≡ some b)
      × (held e b.buckets ≡ elim (age l e es none) [ none ↦ false | some ticked ↦ ltb ticked size ])
unfolding wheel
held_api-run l e es index size home pos_size =
    let (w, ran, shown) = held-run l e es size (pos 1) home pos_size in
    let start : wheel (init_bucket index size) ≡ init size (pos 1) =
      unfold wheel init_bucket init in refl in
    let both : Option.map wheel (run l es (init_bucket index size)) ≡ some w =
      run-wheel l es (init_bucket index size) ∙ ap (gate_run l es) start ∙ ran in
    elim (Option-cases (run l es (init_bucket index size))) [
      | inl failed ↦ absurd (ground (arith, both, ap (Option.map wheel) failed))
      | inr (b, done) ↦
          let same : wheel b ≡ w =
            some-injective (wheel b) w (sym (ap (Option.map wheel) done) ∙ both) in
          (b, done, ap (λ (v : Buckets). held e v.buckets) same ∙ shown)
    ]
