-- ===== src/Findings/Attempt.antt =====
-- A step of an evaluation's transaction: it may fail with an error of the database, which rolls
-- the transaction back, or with an assertion.
use corkscrew.Prelude.{
  ℕ, ◌+◌, ◌≤◌, ◌<◌, ◌≡◌, refl, ap, ◌∙◌, inl, inr, Bool, true, false, Option, List, arith, ltb,
  Bool-cases,
}
use corkscrew.Findings.Types.{Stored, Occurrence}

-- The tables as the transaction sees them, how many statements it has executed, and how the
-- database is going to answer: where it breaks off while the rows of the query with this number are
-- read, if it does.
pub record Tx : Type 0 where
  pub findings : List Stored
  pub occurrences : List Occurrence
  pub statements : ℕ
  pub breaks_off : ℕ → Option ℕ

-- The number of `rolled_back` is that of the statement that was refused.
pub data Attempt {ℓ} (A : Type ℓ) : Type ℓ where
  ok : A → Tx → Attempt A
  rolled_back : ℕ → Attempt A
  panicked : Attempt A

abbrev pub M {ℓ} : Type ℓ → Type ℓ
M A = Tx → Attempt A

abbrev pub pure {ℓ} : {A : Type ℓ} → A → M A
pure a t = ok a t

abbrev pub bind {ℓ κ} : {A : Type ℓ} {B : Type κ} → Attempt A → (A → M B) → Attempt B
bind (ok a t) f = f a t
bind (rolled_back n) f = rolled_back n
bind panicked f = panicked

infixl 5 ◌>>=◌ ◌>>◌
abbrev pub ◌>>=◌ {ℓ κ} : {A : Type ℓ} {B : Type κ} → M A → (A → M B) → M B
◌>>=◌ m f t = bind (m t) f

abbrev pub ◌>>◌ {ℓ} : {B : Type ℓ} → M (Unit {0}) → M B → M B
m >> k = m >>= λ _. k

-- assert.That
abbrev pub assert_that : Bool → M (Unit {0})
assert_that true t = ok tt t
assert_that false t = panicked

abbrev pub run_unless {ℓ} : {A : Type ℓ} → Bool → ℕ → A × Tx → Attempt A
run_unless true n (a, t) = rolled_back n
run_unless false n (a, t) = ok a t

module _ (fails : ℕ → Bool) where
  -- A statement: `fails` tells which ones the database refuses.
  abbrev pub statement {ℓ} : {A : Type ℓ} → (Tx → A × Tx) → M A
  statement run t =
      run_unless (fails t.statements) t.statements
        (run (record t { statements = t.statements + 1 }))

  -- The statements from number `m` up to number `n` were executed, and none of them was refused.
  pub record Ran (m n : ℕ) : Type 0 where
    pub forward : m ≤ n
    pub accepted : (i : ℕ) → m ≤ i → i < n → fails i ≡ false

  -- Begun with this many statements executed: no assertion fails, only a refused statement of its
  -- own rolls back, the first one that is refused, and else all of its own were accepted and the
  -- result is as told. How the database answers is fixed.
  abbrev pub Ensures {ℓ} : {A : Type ℓ} → Tx → (A → Tx → Type 0) → Attempt A → Type 0
  Ensures s P (ok a t) = Ran s.statements t.statements × (t.breaks_off ≡ s.breaks_off) × P a t
  Ensures s P (rolled_back n) = Ran s.statements n × (fails n ≡ true)
  Ensures s P panicked = ⊥

  Ran-refl : (n : ℕ) → Ran n n
  Ran-refl n = record { forward = omega arith; accepted = λ i h k. absurd (omega arith) }

  Ran-trans : (l m n : ℕ) → Ran l m → Ran m n → Ran l n
  Ran-trans l m n h k = record {
    forward = omega (arith, h.forward, k.forward);
    accepted = λ i low high. elim (Bool-cases (ltb i m)) [
      | inl e ↦ h.accepted i low (ground (arith, e))
      | inr e ↦ k.accepted i (ground (arith, e)) high
    ];
  }

  Ran-suc : (n : ℕ) → fails n ≡ false → Ran n (n + 1)
  Ran-suc n e = record {
    forward = omega arith;
    accepted = λ i low high. let here : i ≡ n = omega arith in ap fails here ∙ e;
  }

  pub Ensures-pure {ℓ} :
      {A : Type ℓ} (P : A → Tx → Type 0) (a : A) (t : Tx) → P a t → Ensures t P (ok a t)
  Ensures-pure P a t h = (Ran-refl t.statements, refl, h)

  -- What was begun later, after statements that were accepted.
  Ensures-later {ℓ} :
      {A : Type ℓ} (P : A → Tx → Type 0) (s t : Tx) (m : Attempt A)
      → Ran s.statements t.statements
      → t.breaks_off ≡ s.breaks_off
      → Ensures t P m
      → Ensures s P m
  Ensures-later P s t (ok a u) r e h =
      (Ran-trans s.statements t.statements u.statements r h.0, h.1 ∙ e, h.2)
  Ensures-later P s t (rolled_back n) r e h = (Ran-trans s.statements t.statements n r h.0, h.1)
  Ensures-later P s t panicked r e h = h

  -- What follows may use that the database answers as it was going to.
  pub Ensures-bind_same {ℓ κ} :
      {A : Type ℓ} {B : Type κ} (s : Tx) (P : A → Tx → Type 0) (Q : B → Tx → Type 0) (m : Attempt A)
      (f : A → M B)
      → Ensures s P m
      → ((a : A) (t : Tx) → t.breaks_off ≡ s.breaks_off → P a t → Ensures t Q (f a t))
      → Ensures s Q (bind m f)
  Ensures-bind_same s P Q (ok a t) f h k = Ensures-later Q s t (f a t) h.0 h.1 (k a t h.1 h.2)
  Ensures-bind_same s P Q (rolled_back n) f h k = h
  Ensures-bind_same s P Q panicked f h k = h

  pub Ensures-bind {ℓ κ} :
      {A : Type ℓ} {B : Type κ} (s : Tx) (P : A → Tx → Type 0) (Q : B → Tx → Type 0) (m : Attempt A)
      (f : A → M B)
      → Ensures s P m
      → ((a : A) (t : Tx) → P a t → Ensures t Q (f a t))
      → Ensures s Q (bind m f)
  Ensures-bind s P Q m f h k = Ensures-bind_same s P Q m f h (λ a t e p. k a t p)

  pub Ensures-mono {ℓ} :
      {A : Type ℓ} (s : Tx) (P Q : A → Tx → Type 0) (m : Attempt A)
      → Ensures s P m
      → ((a : A) (t : Tx) → P a t → Q a t)
      → Ensures s Q m
  Ensures-mono s P Q (ok a t) h k = (h.0, h.1, k a t h.2)
  Ensures-mono s P Q (rolled_back n) h k = h
  Ensures-mono s P Q panicked h k = h

  -- A statement changes nothing but the tables.
  abbrev Keeps {ℓ} : {A : Type ℓ} → (Tx → A × Tx) → Type 0
  Keeps run =
      (u : Tx) → ((run u).1.statements ≡ u.statements) × ((run u).1.breaks_off ≡ u.breaks_off)

  -- A statement that is not refused has done what it does, and what follows goes on from there.
  pub Ensures-statement {ℓ κ} :
      {A : Type ℓ} {B : Type κ} (Q : B → Tx → Type 0) (run : Tx → A × Tx) (t : Tx) (f : A → M B)
      → Keeps run
      → ((n : ℕ)
          → Ensures
              (run (record t { statements = n })).1
              Q
              (f (run (record t { statements = n })).0 (run (record t { statements = n })).1))
      → Ensures t Q (bind (statement run t) f)
  Ensures-statement Q run t f counts h = elim (Bool-cases (fails t.statements)) [
    | inl e ↦ rw e (Ran-refl t.statements, e)
    | inr e ↦
        let u : Tx = record t { statements = t.statements + 1 } in
        rw e (
          Ensures-later Q t (run u).1 (f (run u).0 (run u).1)
            (rw (counts u).0 (Ran-suc t.statements e)) (counts u).1 (h (t.statements + 1)))
  ]

  pub Ensures-last {ℓ} :
      {A : Type ℓ} (P : A → Tx → Type 0) (run : Tx → A × Tx) (t : Tx)
      → Keeps run
      → ((n : ℕ) → P (run (record t { statements = n })).0 (run (record t { statements = n })).1)
      → Ensures t P (statement run t)
  Ensures-last P run t counts h = elim (Bool-cases (fails t.statements)) [
    | inl e ↦ rw e (Ran-refl t.statements, e)
    | inr e ↦
        let u : Tx = record t { statements = t.statements + 1 } in
        rw e (rw (counts u).0 (Ran-suc t.statements e), (counts u).1, h (t.statements + 1))
  ]

  pub Ensures-bind_bind {ℓ κ μ} :
      {A : Type ℓ} {B : Type κ} {C : Type μ} (s : Tx) (P : B → Tx → Type 0) (Q : C → Tx → Type 0)
      (m : Attempt A) (f : A → M B) (g : B → M C)
      → Ensures s P (bind m f)
      → ((b : B) (t : Tx) → P b t → Ensures t Q (g b t))
      → Ensures s Q (bind m (λ a. f a >>= g))
  Ensures-bind_bind s P Q (ok a t) f g h k = Ensures-bind s P Q (f a t) g h k
  Ensures-bind_bind s P Q (rolled_back n) f g h k = h
  Ensures-bind_bind s P Q panicked f g h k = h
