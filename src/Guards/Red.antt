-- ===== src/Guards/Red.antt =====
-- thirdpart/RedisLock/redlock.h, `CGuardLock`: what a program of nested guards unlocks.
use cppserver.Prelude.{
  ◌≡◌, refl, sym, ap, ◌∙◌, Bool, true, false, List, ◌∷◌, String, Bool-cases, inl, inr,
}
use cppserver.Prelude.Int.{ℤ}
use cppserver.Guards.{RedLock, construct, destruct, Code, done, guard, run}

-- `Lock` takes one more lock exactly if it succeeds, and `Unlock` gives up the last one.
pub record IsLocking {S L : Type 0} (r : RedLock S L) (held : S → List L) : Type 0 where
  pub locked :
      (resource : String) (ttl : ℤ) (l : L) (s : S)
      → (r.lock resource ttl l s).0.0 ≡ true
      → held (r.lock resource ttl l s).1 ≡ (r.lock resource ttl l s).0.1 ∷ held s
  pub refused :
      (resource : String) (ttl : ℤ) (l : L) (s : S)
      → (r.lock resource ttl l s).0.0 ≡ false
      → held (r.lock resource ttl l s).1 ≡ held s
  pub unlocked : (l : L) (s : S) (rest : List L) → held s ≡ l ∷ rest → held (r.unlock l s) ≡ rest

-- Every guard is made with the same `acquired`.
abbrev pub AllAcquired : Bool → Code → Type 0
AllAcquired b done = Unit
AllAcquired b (guard resource ttl acquired body rest) =
    (acquired ≡ b) × AllAcquired b body × AllAcquired b rest

module _ {S L : Type 0} (r : RedLock S L) (held : S → List L) (law : IsLocking r held) where
  -- Where the body of a scope keeps what is held, so does the scope.
  scope-held :
      (resource : String) (ttl : ℤ) (s s' : S)
      → held s' ≡ held (construct r resource ttl false s).1
      → held (destruct r (construct r resource ttl false s).0 s') ≡ held s
  unfolding construct destruct
  scope-held resource ttl s s' kept = elim (Bool-cases (r.lock resource ttl r.fresh s).0.0) [
    | inl won ↦ rw won (law.unlocked _ s' (held s) (kept ∙ law.locked resource ttl r.fresh s won))
    | inr lost ↦ rw lost (kept ∙ law.refused resource ttl r.fresh s lost)
  ]

  run-held : (code : Code) (s : S) → AllAcquired false code → held (run r code s) ≡ held s
  unfolding run
  run-held done s own = refl
  run-held (guard resource ttl true body rest) s own = cc
  run-held (guard resource ttl false body rest) s own =
      run-held rest _ own.2
      ∙ scope-held resource ttl s _ (run-held body (construct r resource ttl false s).1 own.1)

-- Another `Unlock`.
abbrev pub with_unlock : {S L : Type 0} → RedLock S L → (L → S → S) → RedLock S L
with_unlock r unlock = record r { unlock = unlock }

destruct-continued :
    {S L : Type 0} (r : RedLock S L) (resource : String) (ttl : ℤ) (s s' : S)
    → destruct r (construct r resource ttl true s).0 s' ≡ s'
unfolding construct destruct
destruct-continued r resource ttl s s' =
    elim (Bool-cases (r.continue_lock resource ttl r.fresh s).0.0) [
      | inl won ↦ rw won refl
      | inr lost ↦ rw lost refl
    ]

module _ {S L : Type 0} (r : RedLock S L) (unlock : L → S → S) where
  run-continued :
      (code : Code) (s : S)
      → AllAcquired true code
      → run (with_unlock r unlock) code s ≡ run r code s
  unfolding run construct
  run-continued done s all = refl
  run-continued (guard resource ttl false body rest) s all = cc
  run-continued (guard resource ttl true body rest) s all =
      let after = (construct r resource ttl true s).1 in
      ap (run (with_unlock r unlock) rest) (
        destruct-continued (with_unlock r unlock) resource ttl s _ ∙ run-continued body after all.1)
      ∙ run-continued rest (run r body after) all.2
      ∙ sym (ap (run r rest) (destruct-continued r resource ttl s (run r body after)))

-- If Lock takes one more lock exactly where it succeeds, and Unlock gives up the last one: a
-- program of nested CGuardLock scopes that are all made with acquired false holds at its end the
-- locks that it held at its start. One whose guards are all made with acquired true, which is the
-- default, never calls Unlock: it does the same with any other Unlock.
pub run-guards :
    {S L : Type 0} (r : RedLock S L) (held : S → List L) (own continued : Code) (s : S)
    → IsLocking r held
    → AllAcquired false own
    → AllAcquired true continued
    → (unlock : L → S → S)
    → (held (run r own s) ≡ held s) × (run (with_unlock r unlock) continued s ≡ run r continued s)
run-guards r held own continued s law all_own all_continued unlock =
    (run-held r held law own s all_own, run-continued r unlock continued s all_continued)
