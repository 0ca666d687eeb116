-- ===== src/Gate/Repair/Service.antt =====
-- Framework/game_gate/clients/Container.h: which nodes are under repair, and how many are in
-- service, after any calls. The `Connector` may change between two calls.
use cppserver.Prelude.{
  ℕ, ◌+◌, ◌-◌, ◌^◌, ◌<◌, ◌≡◌, refl, ap, subst, sym, ◌∙◌, Bool, true, false, List, [], ◌∷◌, Option,
  none, some, Option-cases, inl, inr, String, ◌>>=◌, arith, if◌then◌else◌,
}
use mathlib.Core.Option.{some-injective}
use cppserver.Prelude.Int.{sub_ℕ}
use cppserver.Prelude.Maps.{
  string_key, Distinct, insert, lookup, erase, insert-Distinct, erase-Distinct,
}
use cppserver.Gate.Repair
use cppserver.Gate.Repair.Counts.{exist-add, exist-remove, remaining-sub}
use cppserver.Gate.Repair.Container.{
  Connector, Container, count, repair, recover, is_repairing, remaining,
}

pub data Event : Type 0 where
  repairs : String → Event
  recovers : String → Event
  connects : Connector → Event

unfoldable pub step : Bool → Event → Container → Option Container
step debug (repairs k) c = repair debug k c
step debug (recovers k) c = some (recover k c)
step debug (connects clients) c = some (record c { clients = clients })

unfoldable pub run : Bool → List Event → Container → Option Container
run debug [] c = some c
run debug (e ∷ es) c = do d ← step debug e c; run debug es d

-- Which nodes are under repair, and how many.
pub record View : Type 0 where
  pub repairing : String → Bool
  pub number : ℕ

abbrev pub view : Container → View
view c = record { repairing = λ n. is_repairing n c; number = Repair.count c.repairs }

unfoldable pub view_step : Event → View → View
view_step (repairs k) v = record {
  repairing = λ n. if string_key.beq k n then true else v.repairing n;
  number = if v.repairing k then v.number else v.number + 1;
}
view_step (recovers k) v = record {
  repairing = λ n. if string_key.beq k n then false else v.repairing n;
  number = if v.repairing k then v.number - 1 else v.number;
}
view_step (connects clients) v = v

unfoldable pub view_run : List Event → View → View
view_run [] v = v
view_run (e ∷ es) v = view_run es (view_step e v)

-- What a step leaves.
abbrev Stepped : Event → Container → Container → Type 0
Stepped e c d = (view d ≡ view_step e (view c)) × Distinct d.repairs

add-Distinct :
    (debug : Bool) (k : String) (m m' : Repair.Names)
    → Repair.add debug k m ≡ some m'
    → Distinct m
    → Distinct m'
unfolding Repair.add
add-Distinct debug k m m' e u =
    let inserted : insert k true m ≡ m' = ground arith in
    subst (λ x. Distinct x) inserted (insert-Distinct k true m u)

remove-Distinct : (k : String) (m : Repair.Names) → Distinct m → Distinct (Repair.remove k m)
unfolding Repair.remove
remove-Distinct k m u =
    elim (lookup k m) as (λ o. Distinct (elim o [ none ↦ m | some b ↦ erase k m ])) [
      | none ↦ u
      | some b ↦ erase-Distinct k m u
    ]

repairs-Stepped :
    (debug : Bool) (k : String) (c : Container) (m : Repair.Names)
    → Repair.add debug k c.repairs ≡ some m
    → Distinct c.repairs
    → Stepped (repairs k) c (record c { repairs = m })
unfolding view_step is_repairing
repairs-Stepped debug k c m e u = (
  λ i. record {
    repairing = λ n. (exist-add debug n k c.repairs m e).0 i;
    number = (exist-add debug k k c.repairs m e).1 i;
  },
  add-Distinct debug k c.repairs m e u,
)

recovers-Stepped :
    (k : String) (c : Container) → Distinct c.repairs → Stepped (recovers k) c (recover k c)
unfolding view_step is_repairing recover
recovers-Stepped k c u = (
  λ i. record {
    repairing = λ n. (exist-remove n k c.repairs u).0 i;
    number = (exist-remove k k c.repairs u).1 i;
  },
  remove-Distinct k c.repairs u,
)

step-Stepped :
    (debug : Bool) (e : Event) (c d : Container)
    → step debug e c ≡ some d
    → Distinct c.repairs
    → Stepped e c d
unfolding step view_step repair is_repairing
step-Stepped debug (repairs k) c d h u = elim (Option-cases (Repair.add debug k c.repairs)) [
  | inl failed ↦ absurd (ground (arith, failed))
  | inr (m, done) ↦
      let same : some (record c { repairs = m }) ≡ some d =
        subst (λ o. (o >>= λ r. some (record c { repairs = r })) ≡ some d) done h in
      subst (Stepped (repairs k) c) (some-injective _ d same) (repairs-Stepped debug k c m done u)
]
step-Stepped debug (recovers k) c d h u =
    subst (Stepped (recovers k) c) (some-injective _ d h) (recovers-Stepped k c u)
step-Stepped debug (connects clients) c d h u =
    subst (Stepped (connects clients) c) (some-injective _ d h) (refl, u)

run-view :
    (debug : Bool) (es : List Event) (c d : Container)
    → run debug es c ≡ some d
    → Distinct c.repairs
    → view d ≡ view_run es (view c)
unfolding run view_run
run-view debug [] c d h u = ap view (sym (some-injective c d h))
run-view debug (e ∷ es) c d h u = elim (Option-cases (step debug e c)) [
  | inl failed ↦ absurd (ground (arith, failed))
  | inr (c1, done) ↦
      let stepped = step-Stepped debug e c c1 done u in
      let ran : run debug es c1 ≡ some d = subst (λ o. (o >>= run debug es) ≡ some d) done h in
      run-view debug es c1 d ran stepped.1 ∙ ap (view_run es) stepped.0
]

-- Whatever calls of repair and recover a build carries out without an abort, while the connector
-- changes in any way, on a container that has each name under repair once: the nodes under repair
-- are those that were repaired and not recovered since, or were before, and the number in service
-- is that of the active nodes less that of the nodes under repair, negative where fewer are
-- active, as long as both are below 2 ^ 63.
pub service-run :
    (debug : Bool) (es : List Event) (c d : Container)
    → run debug es c ≡ some d
    → Distinct c.repairs
    → count d < 2 ^ 63
    → (view_run es (view c)).number < 2 ^ 63
    → ((n : String) → is_repairing n d ≡ (view_run es (view c)).repairing n)
      × (remaining d ≡ sub_ℕ (count d) (view_run es (view c)).number)
unfolding remaining
service-run debug es c d h u small few =
    let e = run-view debug es c d h u in
    let number : Repair.count d.repairs ≡ (view_run es (view c)).number = ap (λ v. v.number) e in
    (
      (λ n. ap (λ v. v.repairing n) e),
      remaining-sub (count d) d.repairs small (subst (λ x. x < 2 ^ 63) (sym number) few)
          ∙ ap (sub_ℕ (count d)) number,
    )
