-- ===== src/Mongo/Invariant.antt =====
-- thirdpart/MongoDB/MongoDBClient.h: each client that is alive belongs to one thread. What each
-- operation leaves of this.
use cppserver.Prelude.{
  ℕ, ◌+◌, ◌==◌, ◌<◌, ◌≡◌, ◌≢◌, ◌⊎◌, refl, sym, ap, subst, ◌∙◌, true, Option, none, some, String,
  if◌then◌else◌, Bool-cases, inl, inr, arith,
}
use mathlib.Core.Option.{some-injective}
use cppserver.Mongo.{Clients, put, init, set_uri, set_option}

pub record IsOwned (s : Clients) : Type 0 where
  pub key_exists : s.key ≡ true
  pub slots : (t : ℕ) → s.slot t ≡ s.value t
  pub below : (t o : ℕ) → s.value t ≡ some o → o < s.next
  pub alone : (t u o : ℕ) → s.value t ≡ some o → s.value u ≡ some o → t ≡ u
  pub alive : (t o : ℕ) → s.value t ≡ some o → (url : String × ℕ) × (s.live o ≡ some url)
  pub owned : (o : ℕ) (url : String × ℕ) → s.live o ≡ some url → (t : ℕ) × (s.value t ≡ some o)

pub init-IsOwned : IsOwned init
unfolding init
init-IsOwned = record {
  key_exists = refl;
  slots = λ t. refl;
  below = λ t o h. absurd (ground arith);
  alone = λ t u o h k. absurd (ground arith);
  alive = λ t o h. absurd (ground arith);
  owned = λ o url h. absurd (ground arith);
}

-- The state after a client was made for a thread.
abbrev pub made : ℕ → Clients → Clients
made t s = record s {
  value = put t (some s.next) s.value;
  slot = put t (some s.next) s.slot;
  live = put s.next (some (s.uri, s.options)) s.live;
  next = s.next + 1;
}

pub put_hit : {A : Type 0} (t : ℕ) (v : A) (f : ℕ → A) → put t v f t ≡ v
put_hit t v f = ground arith

pub put_miss : {A : Type 0} (t : ℕ) (v : A) (f : ℕ → A) (u : ℕ) → t ≢ u → put t v f u ≡ f u
put_miss t v f u n = ground arith

-- What a changed table holds was put there or was there before.
put-some :
    {A : Type 0} (t : ℕ) (v : Option A) (f : ℕ → Option A) (u : ℕ) (x : A)
    → put t v f u ≡ some x
    → ((t ≡ u) × (v ≡ some x)) ⊎ ((t ≢ u) × (f u ≡ some x))
put-some t v f u x h = elim (Bool-cases (t == u)) [
  | inl e ↦
      let same : t ≡ u = ground arith in
      inl (same, subst (λ b. (if b then v else f u) ≡ some x) e h)
  | inr n ↦
      let apart : t ≢ u = ground arith in
      inr (apart, subst (λ b. (if b then v else f u) ≡ some x) n h)
]

pub made-IsOwned : (t : ℕ) (s : Clients) → s.value t ≡ none → IsOwned s → IsOwned (made t s)
made-IsOwned t s h w = record {
  key_exists = w.key_exists;
  slots = λ u. ground (arith, w.slots u);
  below = λ u o k. elim (put-some t (some s.next) s.value u o k) [
    | inl (_, e) ↦ let same : s.next ≡ o = some-injective _ _ e in omega arith
    | inr (_, old) ↦ omega (arith, w.below u o old)
  ];
  alone = λ u v o k l. elim (put-some t (some s.next) s.value u o k) [
    | inl (tu, e) ↦ elim (put-some t (some s.next) s.value v o l) [
      | inl (tv, _) ↦ sym tu ∙ tv
      | inr (_, old) ↦
          let same : s.next ≡ o = some-injective _ _ e in absurd (omega (arith, w.below v o old))
    ]
    | inr (_, old) ↦ elim (put-some t (some s.next) s.value v o l) [
      | inl (_, e) ↦
          let same : s.next ≡ o = some-injective _ _ e in absurd (omega (arith, w.below u o old))
      | inr (_, older) ↦ w.alone u v o old older
    ]
  ];
  alive = λ u o k. elim (put-some t (some s.next) s.value u o k) [
    | inl (_, e) ↦ (
      (s.uri, s.options),
      subst (λ c. put s.next (some (s.uri, s.options)) s.live c ≡ some (s.uri, s.options))
          (some-injective _ _ e) (put_hit s.next (some (s.uri, s.options)) s.live),
    )
    | inr (_, old) ↦
        let url = w.alive u o old in
        let small : s.next ≢ o = λ e. absurd (omega (arith, w.below u o old)) in
        (url.0, put_miss s.next (some (s.uri, s.options)) s.live o small ∙ url.1)
  ];
  owned = λ o url k. elim (put-some s.next (some (s.uri, s.options)) s.live o url k) [
    | inl (e, _) ↦ (t, put_hit t (some s.next) s.value ∙ ap some e)
    | inr (_, old) ↦
        let u = w.owned o url old in
        let apart : t ≢ u.0 = λ e. absurd (ground (arith, h, u.1, e)) in
        (u.0, put_miss t (some s.next) s.value u.0 apart ∙ u.1)
  ];
}

pub put-old :
    {A : Type 0} (t : ℕ) (f : ℕ → Option A) (u : ℕ) (x : A)
    → put t none f u ≡ some x
    → (t ≢ u) × (f u ≡ some x)
put-old t f u x h = elim (put-some t none f u x h) [
  | inl (_, e) ↦ absurd (ground (arith, e))
  | inr old ↦ old
]

-- The state after the client of a thread was freed.
abbrev pub freed : ℕ → ℕ → Clients → Clients
freed t o s = record s {
  value = put t none (put t none s.value);
  slot = put t none s.slot;
  live = put o none s.live;
}

pub freed-IsOwned : (t o : ℕ) (s : Clients) → s.value t ≡ some o → IsOwned s → IsOwned (freed t o s)
freed-IsOwned t o s h w =
    let old : (u x : ℕ)
        → put t none (put t none s.value) u ≡ some x
        → (t ≢ u) × (s.value u ≡ some x) =
      λ u x k. put-old t s.value u x (put-old t (put t none s.value) u x k).1 in
    record {
      key_exists = w.key_exists;
      slots = λ u. ground (arith, w.slots u);
      below = λ u x k. w.below u x (old u x k).1;
      alone = λ u v x k l. w.alone u v x (old u x k).1 (old v x l).1;
      alive = λ u x k.
          let url = w.alive u x (old u x k).1 in
          let apart : o ≢ x = λ e. (old u x k).0 (w.alone t u x (h ∙ ap some e) (old u x k).1) in
          (url.0, put_miss o none s.live x apart ∙ url.1);
      owned = λ x url k.
          let was = put-old o s.live x url k in
          let u = w.owned x url was.1 in
          let apart : t ≢ u.0 = λ e. was.0 (some-injective o x (sym h ∙ ap s.value e ∙ u.1)) in
          (
            u.0,
            put_miss t none (put t none s.value) u.0 apart
                ∙ put_miss t none s.value u.0 apart
                ∙ u.1,
          );
    }

-- The state after a thread without a client ended.
abbrev pub quiet : ℕ → Clients → Clients
quiet t s = record s { value = put t none s.value }

pub quiet-IsOwned : (t : ℕ) (s : Clients) → s.value t ≡ none → IsOwned s → IsOwned (quiet t s)
quiet-IsOwned t s h w = record {
  key_exists = w.key_exists;
  slots = λ u. elim (Bool-cases (t == u)) [
    | inl e ↦ let same : t ≡ u = ground arith in rw e (w.slots u ∙ ap s.value (sym same) ∙ h)
    | inr n ↦ rw n (w.slots u)
  ];
  below = λ u x k. w.below u x (put-old t s.value u x k).1;
  alone = λ u v x k l. w.alone u v x (put-old t s.value u x k).1 (put-old t s.value v x l).1;
  alive = λ u x k. w.alive u x (put-old t s.value u x k).1;
  owned = λ x url k.
      let u = w.owned x url k in
      let apart : t ≢ u.0 = λ e. absurd (ground (arith, h, u.1, e)) in
      (u.0, put_miss t none s.value u.0 apart ∙ u.1);
}

pub uri-IsOwned : (url : String) (s : Clients) → IsOwned s → IsOwned (set_uri url s)
unfolding set_uri
uri-IsOwned url s w = record {
  key_exists = w.key_exists;
  slots = w.slots;
  below = w.below;
  alone = w.alone;
  alive = w.alive;
  owned = w.owned;
}

pub option-IsOwned : (options : ℕ) (s : Clients) → IsOwned s → IsOwned (set_option options s)
unfolding set_option
option-IsOwned options s w = record {
  key_exists = w.key_exists;
  slots = w.slots;
  below = w.below;
  alone = w.alone;
  alive = w.alive;
  owned = w.owned;
}
