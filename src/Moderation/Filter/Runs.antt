-- ===== src/Moderation/Filter/Runs.antt =====
-- The loop over the windows finds the longest run, and what the filter blocks and reviews.
use ephemera_social.Base.{
  as_u32, replicate, ℕ, zero, suc, ◌+◌, ◌*◌, ◌-◌, ◌≤◌, ◌<◌, ◌≡◌, ◌⊎◌, refl, ap, sym, List, [], ◌∷◌,
  ◌++◌, none, some, Bool, length, ltb, leb, Bool-cases, if◌then◌else◌, same, list_ord, nat_ord,
  Bytes, max, arith, inl, inr,
}
use mathlib.Core.Path.{subst}
use ephemera_social.Moderation.Filter.{
  windows, longest_run, check_repeated_chars, check, ContentFilter, block, require_review,
  blocklisted, repeated_characters, is_blocked, check_excessive_caps,
}

-- Somewhere in the text one character stands `n` times in a row.
abbrev pub HasRun : ℕ → List ℕ → Type 0
HasRun n text =
    (before : List ℕ) × (c : ℕ) × (after : List ℕ) × (text ≡ before ++ (replicate n c ++ after))

-- How long the run at the head is, and the longest one.
lead : List ℕ → ℕ
lead [] = 0
lead (c ∷ []) = 1
lead (c ∷ d ∷ ds) = if same c d then suc (lead (d ∷ ds)) else 1

longest : List ℕ → ℕ
longest [] = 0
longest (c ∷ cs) = max (lead (c ∷ cs)) (longest cs)

lead_le : (cs : List ℕ) → lead cs ≤ longest cs
unfolding lead longest
lead_le [] = omega arith
lead_le (c ∷ cs) = omega arith

lead_positive : (c : ℕ) (cs : List ℕ) → 1 ≤ lead (c ∷ cs)
unfolding lead
lead_positive c [] = omega arith
lead_positive c (d ∷ ds) = ground (arith, lead_positive d ds)

windows-longest :
    (c : ℕ) (cs : List ℕ) (m k : ℕ)
    → 1 ≤ k
    → k ≤ m
    → k + length cs < 4294967296
    → (windows (c ∷ cs) (record { max_run = m; current_run = k })).max_run
      ≡ max m (max ((k - 1) + lead (c ∷ cs)) (longest (c ∷ cs)))
unfolding windows longest lead
windows-longest c [] m k h l b = omega arith
windows-longest c (d ∷ ds) m k h l b =
    let fits : as_u32 (k + 1) ≡ k + 1 = omega (arith, b) in
    ground (
      arith,
      b,
      fits,
      windows-longest d ds (if ltb m (k + 1) then k + 1 else m) (k + 1),
      windows-longest d ds m 1,
      lead_positive d ds,
      lead_le (d ∷ ds),
    )

longest_run-longest :
    (c : ℕ) (cs : List ℕ) → length (c ∷ cs) < 4294967296 → longest_run (c ∷ cs) ≡ longest (c ∷ cs)
unfolding longest_run
longest_run-longest c cs b = omega (
  arith,
  windows-longest c cs 1 1 (omega arith) (omega arith) (omega (arith, b)),
  lead_positive c cs,
  lead_le (c ∷ cs),
)

lead-replicate : (n c : ℕ) (after : List ℕ) → n ≤ lead (replicate n c ++ after)
unfolding lead
lead-replicate zero c after = omega arith
lead-replicate (suc zero) c [] = omega arith
lead-replicate (suc zero) c (d ∷ ds) = lead_positive c (d ∷ ds)
lead-replicate (suc (suc n)) c after = ground (arith, lead-replicate (suc n) c after)

longest-append : (before cs : List ℕ) → longest cs ≤ longest (before ++ cs)
unfolding longest
longest-append [] cs = omega arith
longest-append (b ∷ bs) cs = omega (arith, longest-append bs cs)

run_le : (n : ℕ) (text : List ℕ) → HasRun n text → n ≤ longest text
run_le n text (before, c, after, e) = omega (
  arith,
  ap longest e,
  longest-append before (replicate n c ++ after),
  lead_le (replicate n c ++ after),
  lead-replicate n c after,
)

lead_run :
    (c : ℕ) (cs : List ℕ) → (after : List ℕ) × (c ∷ cs ≡ replicate (lead (c ∷ cs)) c ++ after)
unfolding lead
lead_run c [] = ([], refl)
lead_run c (d ∷ ds) = elim (Bool-cases (same c d)) [
  | inl e ↦
      let (after, h) = lead_run d ds in
      let eqs : d ≡ c = ground arith in
      (after, rw e (ap (◌∷◌ c) (subst (λ x. d ∷ ds ≡ replicate (lead (d ∷ ds)) x ++ after) eqs h)))
  | inr e ↦ (d ∷ ds, rw e refl)
]

longest-HasRun : (text : List ℕ) → HasRun (longest text) text
unfolding longest
longest-HasRun [] = ([], 0, [], refl)
longest-HasRun (c ∷ cs) = elim (Bool-cases (leb (longest cs) (lead (c ∷ cs)))) [
  | inl e ↦
      let (after, h) = lead_run c cs in
      let n : max (lead (c ∷ cs)) (longest cs) ≡ lead (c ∷ cs) = ground arith in
      rw n ([], c, after, h)
  | inr e ↦
      let (before, d, after, h) = longest-HasRun cs in
      let n : max (lead (c ∷ cs)) (longest cs) ≡ longest cs = ground arith in
      rw n (c ∷ before, d, after, ap (◌∷◌ c) h)
]

-- In a text that is not empty and has fewer than 2^32 characters, the loop over the windows returns the length of a run of one
-- character, and no run of the text is longer.
pub longest_run_lem :
    (text : List ℕ) (n : ℕ)
    → 0 < length text
    → length text < 4294967296
    → HasRun n text
    → HasRun (longest_run text) text × (n ≤ longest_run text)
longest_run_lem [] n h b run = elim h [ ]
longest_run_lem (c ∷ cs) n h b run =
    let e : longest_run (c ∷ cs) ≡ longest (c ∷ cs) = longest_run-longest c cs b in
    (
      subst (λ k. HasRun k (c ∷ cs)) (sym e) (longest-HasRun (c ∷ cs)),
      omega (arith, e, run_le n (c ∷ cs) run),
    )

module _ (is_alphabetic is_uppercase : ℕ → Bool) (exceeds : ℕ → ℕ → Bool) where
  caps_result :
      (text : List ℕ) (f : ContentFilter)
      → (check_excessive_caps is_alphabetic is_uppercase exceeds text f ≡ none)
        ⊎ (check_excessive_caps is_alphabetic is_uppercase exceeds text f ≡ some require_review)
  unfolding check_excessive_caps
  caps_result text f = ground arith

  -- A text of at least twenty and fewer than 2^32 characters in which one character stands in a row for more than half
  -- of the text never passes: it is blocked, for its hash or for the repetition, or, where its hash
  -- is not on the list and it is in capitals too, sent to review.
  pub spam_stopped :
      (hash : Bytes) (text : List ℕ) (n : ℕ) (f : ContentFilter)
      → 20 ≤ length text
      → length text < 4294967296
      → length text < 2 * n
      → HasRun n text
      → check is_alphabetic is_uppercase exceeds hash text f ≡ (
          if is_blocked hash f.blocklist
          then block blocklisted
          else elim (check_excessive_caps is_alphabetic is_uppercase exceeds text f) [
            | none ↦ block repeated_characters
            | some r ↦ require_review
          ])
  unfolding check check_repeated_chars
  spam_stopped hash text n f l b h run =
      let long = (longest_run_lem text n (omega arith) b run).1 in
      let caught : check_repeated_chars text ≡ some (block repeated_characters) =
        ground (arith, long, l, h) in
      ground (arith, caught, caps_result text f)
