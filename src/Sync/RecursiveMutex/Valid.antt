-- ===== src/Sync/RecursiveMutex/Valid.antt =====
-- The invariant of a recursive mutex: one token, pending or with a thread, and each thread's view of `owner`
-- and `held`.
use se_l4_libs.Prelude.{
  ℕ, zero, suc, ◌+◌, ◌≡◌, ◌≢◌, ◌≤◌, ◌<◌, ◌⊎◌, inl, inr, refl, sym, ap, subst, Bool, true, false,
  List, [], ◌∷◌, some, get_elem?, set, arith,
}
use mathlib.Core.Option.{some-injective, none-ne-some}
use se_l4_libs.Sync.Threads.{tally, tally-set, tally-same}
use se_l4_libs.Sync.Notification.{Notification}
use se_l4_libs.Sync.RecursiveMutex.{
  Pc, outside, blocked, woken, owning, inside, releasing, signalling, crashed, uint_max, Mutex,
  System, Move,
}

abbrev pub count : Bool → ℕ
count true = 1
count false = 0

-- Whether a thread at this place carries the token.
abbrev pub carries : Pc → ℕ
carries outside = 0
carries blocked = 0
carries woken = 1
carries owning = 1
carries inside = 1
carries releasing = 1
carries signalling = 1
carries crashed = 0

abbrev pub Agrees : ℕ → Pc → Mutex → Type 0
Agrees id outside m = m.owner ≢ id
Agrees id blocked m = m.owner ≢ id
Agrees id woken m = (m.owner ≡ 0) × (m.held ≡ 0)
Agrees id owning m = (m.owner ≡ id) × (m.held ≡ 0)
Agrees id inside m = (m.owner ≡ id) × (0 < m.held)
Agrees id releasing m = (m.owner ≡ id) × (m.held ≡ 0)
Agrees id signalling m = (m.owner ≡ 0) × (m.held ≡ 0)
Agrees id crashed m = ⊥

module _ (n : Notification) where
  pub record IsValid (x : System n) : Type 0 where
    pub token : tally carries x.threads + count (n.pending x.object) ≡ 1
    pub free : count (n.pending x.object) ≡ 1 → (x.mutex.owner ≡ 0) × (x.mutex.held ≡ 0)
    pub small : x.mutex.held ≤ uint_max
    pub views : (i : ℕ) (p : Pc) → get_elem? x.threads i ≡ some p → Agrees (i + 1) p x.mutex

  -- What a move of thread `i` does to the shared state: it keeps the mutex, or carries the token and leaves in
  -- `owner` what was there, its own id or NULL.
  pub record IsFair (id : ℕ) (p : Pc) (m : Mutex) (s : n.State) (r : Move n) : Type 0 where
    pub balance : carries r.0.0 + count (n.pending r.1) ≡ carries p + count (n.pending s)
    pub freed : count (n.pending r.1) ≡ 1 → (r.0.1.owner ≡ 0) × (r.0.1.held ≡ 0)
    pub few : r.0.1.held ≤ uint_max
    pub view : Agrees id r.0.0 r.0.1
    pub owned :
        (r.0.1 ≡ m)
        ⊎ ((carries p ≡ 1) × ((r.0.1.owner ≡ m.owner) ⊎ (r.0.1.owner ≡ id) ⊎ (r.0.1.owner ≡ 0)))

-- A thread without the token only asks that `owner` is another.
bystander :
    (id : ℕ) (p : Pc) (m k : Mutex) → carries p ≡ 0 → Agrees id p m → k.owner ≢ id → Agrees id p k
bystander id outside m k h a o = o
bystander id blocked m k h a o = o
bystander id woken m k h a o = absurd (omega arith)
bystander id owning m k h a o = absurd (omega arith)
bystander id inside m k h a o = absurd (omega arith)
bystander id releasing m k h a o = absurd (omega arith)
bystander id signalling m k h a o = absurd (omega arith)
bystander id crashed m k h a o = a

bystander_owner : (id : ℕ) (p : Pc) (m : Mutex) → carries p ≡ 0 → Agrees id p m → m.owner ≢ id
bystander_owner id outside m h a = a
bystander_owner id blocked m h a = a
bystander_owner id woken m h a = absurd (omega arith)
bystander_owner id owning m h a = absurd (omega arith)
bystander_owner id inside m h a = absurd (omega arith)
bystander_owner id releasing m h a = absurd (omega arith)
bystander_owner id signalling m h a = absurd (omega arith)
bystander_owner id crashed m h a = absurd a

carries_one : (p : Pc) → (carries p ≡ 0) ⊎ (carries p ≡ 1)
carries_one outside = inl refl
carries_one blocked = inl refl
carries_one woken = inr refl
carries_one owning = inr refl
carries_one inside = inr refl
carries_one releasing = inr refl
carries_one signalling = inr refl
carries_one crashed = inl refl

-- The item at an index of a list with one item replaced is the new one there, an old one elsewhere.
get_elem?-set :
    {A : Type 0} (xs : List A) (i j : ℕ) (v w : A)
    → get_elem? (set xs i v) j ≡ some w
    → ((i ≡ j) × (v ≡ w)) ⊎ ((i ≢ j) × (get_elem? xs j ≡ some w))
get_elem?-set [] i j v w h = absurd (none-ne-some w h)
get_elem?-set (x ∷ xs) zero zero v w h = inl (refl, some-injective v w h)
get_elem?-set (x ∷ xs) zero (suc j) v w h = inr (λ e. omega arith, h)
get_elem?-set (x ∷ xs) (suc i) zero v w h = inr (λ e. omega arith, h)
get_elem?-set (x ∷ xs) (suc i) (suc j) v w h = elim (get_elem?-set xs i j v w h) [
  | inl e ↦ inl (ap suc e.0, e.1)
  | inr e ↦ inr (λ q. e.0 (omega arith), e.1)
]

module _ (n : Notification) where
  other-Agrees :
      (x : System n) (i j : ℕ) (p q : Pc) (r : Move n)
      → IsValid n x
      → get_elem? x.threads i ≡ some p
      → IsFair n (i + 1) p x.mutex x.object r
      → i ≢ j
      → get_elem? x.threads j ≡ some q
      → Agrees (j + 1) q r.0.1
  other-Agrees x i j p q r valid there fair apart h = elim fair.owned [
    | inl e ↦ subst (λ (k : Mutex). Agrees (j + 1) q k) (sym e) (valid.views j q h)
    | inr e ↦ elim (carries_one q) [
      | inl z ↦
          (let away = bystander_owner (j + 1) q x.mutex z (valid.views j q h) in
            bystander (j + 1) q x.mutex r.0.1 z (valid.views j q h) (grind arith))
      | inr o ↦
          absurd (
            apart (tally-same carries x.threads i j p q there h e.0 o (omega (arith, valid.token))))
    ]
  ]

  pub fair-IsValid :
      (x : System n) (i : ℕ) (p : Pc) (r : Move n)
      → IsValid n x
      → get_elem? x.threads i ≡ some p
      → IsFair n (i + 1) p x.mutex x.object r
      → IsValid n (record { mutex = r.0.1; object = r.1; threads = set x.threads i r.0.0 })
  fair-IsValid x i p r valid there fair = record {
    token = omega (arith, valid.token, fair.balance, tally-set carries x.threads i p r.0.0 there);
    free = fair.freed;
    small = fair.few;
    views = λ j q h. elim (get_elem?-set x.threads i j r.0.0 q h) [
      | inl e ↦
          subst (λ (k : ℕ). Agrees (k + 1) q r.0.1) e.0
            (subst (λ (k : Pc). Agrees (i + 1) k r.0.1) e.1 fair.view)
      | inr e ↦ other-Agrees x i j p q r valid there fair e.0 e.1
    ];
  }
