-- ===== src/Crdt/LwwRegister.antt =====
-- crates/ephemera-crdt/src/lwwregister.rs: a register whose latest write wins.
use ephemera_social.Base.{
  max, List, [], ◌∷◌, ◌≡◌, ◌≢◌, ◌↔◌, ◌⊎◌, inl, inr, ap, ◌∙◌, sym, Bool, true, false, ltb,
  if◌then◌else◌, arith, All,
}
use mathlib.Core.List.{foldr, Perm}
use mathlib.Core.List.Perm
use native.Mathlib.Decide.{ℕ_discrete}
use native.Mathlib.Nat.{ℕ_set}
use ephemera_social.Types.Hlc.{HlcTimestamp}

pub record LwwRegister {ℓ} (V : Type ℓ) : Type ℓ where
  pub value : V
  pub timestamp : HlcTimestamp

module _ {ℓ} {V : Type ℓ} where
  unfoldable pub new : V → HlcTimestamp → LwwRegister V
  new value timestamp = record { value = value; timestamp = timestamp }

  unfoldable pub set : V → HlcTimestamp → LwwRegister V → LwwRegister V × Bool
  set value timestamp r =
      if ltb r.timestamp timestamp
      then (record { value = value; timestamp = timestamp }, true)
      else (r, false)

  unfoldable pub merge : LwwRegister V → LwwRegister V → LwwRegister V
  merge self other =
      if ltb self.timestamp other.timestamp
      then record { value = other.value; timestamp = other.timestamp }
      else self

  merge_tie : (a b : LwwRegister V) → a.timestamp ≡ b.timestamp → merge a b ≡ a
  unfolding merge
  merge_tie a b h = ground arith

  commutes→ : (a b : LwwRegister V) → merge a b ≡ merge b a → (a.timestamp ≢ b.timestamp) ⊎ (a ≡ b)
  commutes→ a b h = elim (ℕ_discrete a.timestamp b.timestamp) [
    | yes p ↦ inr (sym (merge_tie a b p) ∙ h ∙ merge_tie b a (sym p))
    | no p ↦ inl p
  ]

  →commutes : (a b : LwwRegister V) → (a.timestamp ≢ b.timestamp) ⊎ (a ≡ b) → merge a b ≡ merge b a
  unfolding merge
  →commutes a b (inl h) = ground arith
  →commutes a b (inr h) = cc

  -- `set` is the merge with a new register, and returns whether the timestamp is newer; merging is
  -- associative and idempotent; and it is commutative on two registers exactly when their
  -- timestamps differ or they are equal.
  pub register_merge_laws :
      (a b c : LwwRegister V) (value : V) (timestamp : HlcTimestamp)
      → ((set value timestamp a).0 ≡ merge a (new value timestamp))
        × ((set value timestamp a).1 ≡ ltb a.timestamp timestamp)
        × (merge (merge a b) c ≡ merge a (merge b c))
        × (merge a a ≡ a)
        × ((merge a b ≡ merge b a) ↔ ((a.timestamp ≢ b.timestamp) ⊎ (a ≡ b)))
  unfolding merge set new
  register_merge_laws a b c value timestamp =
      (ground arith, ground arith, ground arith, ground arith, (commutes→ a b, →commutes a b))

  -- A replica that merges the registers it receives, in order.
  unfoldable pub merge_all : LwwRegister V → List (LwwRegister V) → LwwRegister V
  merge_all r [] = r
  merge_all r (s ∷ rs) = merge_all (merge r s) rs

  -- The registers are writes of one history, which has one value for each timestamp.
  abbrev pub Consistent : (HlcTimestamp → V) → LwwRegister V → Type ℓ
  Consistent history r = r.value ≡ history r.timestamp

  abbrev latest : HlcTimestamp → List (LwwRegister V) → HlcTimestamp
  latest t rs = foldr (λ r m. max r.timestamp m) t rs

  latest-max :
      (t u : HlcTimestamp) (rs : List (LwwRegister V)) → latest (max t u) rs ≡ max u (latest t rs)
  latest-max t u [] = omega arith
  latest-max t u (r ∷ rs) = omega (arith, latest-max t u rs)

  merge-Consistent :
      (history : HlcTimestamp → V) (r s : LwwRegister V)
      → Consistent history r
      → Consistent history s
      → Consistent history (merge r s) × ((merge r s).timestamp ≡ max r.timestamp s.timestamp)
  unfolding merge
  merge-Consistent history r s h k = ground arith

  merge_all-latest :
      (history : HlcTimestamp → V) (r : LwwRegister V) (rs : List (LwwRegister V))
      → Consistent history r
      → All (Consistent history) rs
      → merge_all r rs ≡ new (history (latest r.timestamp rs)) (latest r.timestamp rs)
  unfolding merge_all new
  merge_all-latest history r [] h k = ground arith
  merge_all-latest history r (s ∷ rs) h k =
      let m = merge-Consistent history r s h k.0 in
      let t : latest (merge r s).timestamp rs ≡ max s.timestamp (latest r.timestamp rs) =
        ap (λ u. latest u rs) m.1 ∙ latest-max r.timestamp s.timestamp rs in
      merge_all-latest history (merge r s) rs m.0 k.1 ∙ ap (λ u. new (history u) u) t

  -- Replicas that start from one register and receive the same registers in two orders end in the same
  -- one, if all of them are writes of one history, which has one value for each timestamp. Without this
  -- they may not: two registers merge alike in both orders exactly if their timestamps differ or they are
  -- equal, since at a tie of timestamps each replica keeps its own value.
  pub merge_all-perm :
      (history : HlcTimestamp → V) (r a b : LwwRegister V) (rs ss : List (LwwRegister V))
      → Consistent history r
      → All (Consistent history) rs
      → All (Consistent history) ss
      → Perm rs ss
      → (merge_all r rs ≡ merge_all r ss)
        × ((merge a b ≡ merge b a) ↔ ((a.timestamp ≢ b.timestamp) ⊎ (a ≡ b)))
  merge_all-perm history r a b rs ss h k l p = (
    merge_all-latest history r rs h k
        ∙ ap (λ u. new (history u) u)
            (Perm.foldr-eq ℕ_set (λ r m. max r.timestamp m) (λ a b m. omega arith) p r.timestamp)
        ∙ sym (merge_all-latest history r ss h l),
    (commutes→ a b, →commutes a b),
  )
