-- ===== src/Moderation/Filter.antt =====
-- crates/ephemera-mod/src/blocklist.rs, but for its text form, and filter.rs. A text is the list of
-- its characters' codes. The Unicode tables, the hash of blake3 and the comparison of a quotient of
-- floating-point numbers with the largest ratio are parameters.
pub mod Runs
use ephemera_social.Base.{
  text_len, ℕ, zero, suc, ◌+◌, ◌-◌, ◌/◌, List, [], ◌∷◌, Option, none, some, Bool, true, false, not,
  length, ltb, leb, if◌then◌else◌, same, list_ord, nat_ord, Bytes, keep, as_u32,
}
use ephemera_social.Map
use ephemera_social.Map.{insert, remove, get}
use ephemera_social.Set
use ephemera_social.Set.{Set}

-- `LocalBlocklist`
abbrev pub Blocklist : Type 0
Blocklist = Set Bytes

unfoldable pub add : Bytes → Blocklist → Blocklist × Bool
unfolding insert get
add hash blocklist = (Set.add hash blocklist, not (Set.contains hash blocklist))

unfoldable pub discard : Bytes → Blocklist → Blocklist × Bool
unfolding remove get
discard hash blocklist = (remove hash blocklist, Set.contains hash blocklist)

unfoldable pub is_blocked : Bytes → Blocklist → Bool
unfolding get
is_blocked hash blocklist = Set.contains hash blocklist

-- The two reasons to block and the one to review.
pub data BlockReason : Type 0 where
  blocklisted repeated_characters : BlockReason

pub data FilterResult : Type 0 where
  allow : FilterResult
  block : BlockReason → FilterResult
  require_review : FilterResult

pub record ContentFilter : Type 0 where
  pub blocklist : Blocklist
  pub min_length_for_caps_check : ℕ

unfoldable pub new : Blocklist → ContentFilter
new blocklist = record { blocklist = blocklist; min_length_for_caps_check = 20 }

-- The state of the loop over `windows(2)`: the longest run and the current one, two counters of 32
-- bits, which wrap around where overflow is not checked.
pub record RunState : Type 0 where
  pub max_run : ℕ
  pub current_run : ℕ

unfoldable pub window : ℕ → ℕ → RunState → RunState
window a b r =
    if same a b
    then record {
      max_run =
          if ltb r.max_run (as_u32 (r.current_run + 1))
          then as_u32 (r.current_run + 1)
          else r.max_run;
      current_run = as_u32 (r.current_run + 1);
    }
    else record r { current_run = 1 }

unfoldable pub windows : List ℕ → RunState → RunState
unfolding window
windows [] r = r
windows (a ∷ []) r = r
windows (a ∷ b ∷ cs) r = windows (b ∷ cs) (window a b r)

unfoldable pub longest_run : List ℕ → ℕ
unfolding windows
longest_run chars = (windows chars (record { max_run = 1; current_run = 1 })).max_run

unfoldable pub check_repeated_chars : List ℕ → Option FilterResult
unfolding longest_run
check_repeated_chars text =
    if ltb (length text) 20
    then none
    else if ltb (length text / 2) (longest_run text)
    then some (block repeated_characters)
    else none

-- `upper as f64 / alpha as f64 > self.max_caps_ratio` is `exceeds upper alpha`.
module _ (is_alphabetic is_uppercase : ℕ → Bool) (exceeds : ℕ → ℕ → Bool) where
  abbrev pub alpha_chars : List ℕ → List ℕ
  alpha_chars text = keep is_alphabetic text

  abbrev pub upper_count : List ℕ → ℕ
  upper_count text = length (keep is_uppercase (alpha_chars text))

  unfoldable pub check_excessive_caps : List ℕ → ContentFilter → Option FilterResult
  unfolding keep text_len
  check_excessive_caps text f =
      if ltb (text_len text) f.min_length_for_caps_check then none else elim (alpha_chars text) [
        | [] ↦ none
        | ◌∷◌ c cs ↦
            if exceeds (upper_count text) (length (alpha_chars text))
            then some require_review
            else none
      ]

  -- The two `if let Some(result)`.
  abbrev pub or_else : Option FilterResult → Option FilterResult → FilterResult
  or_else (some result) other = result
  or_else none (some result) = result
  or_else none none = allow

  unfoldable pub check : Bytes → List ℕ → ContentFilter → FilterResult
  unfolding is_blocked check_excessive_caps check_repeated_chars
  check hash text f =
      if is_blocked hash f.blocklist
      then block blocklisted
      else or_else (check_excessive_caps text f) (check_repeated_chars text)

  unfoldable pub check_text : (List ℕ → Bytes) → List ℕ → ContentFilter → FilterResult
  unfolding check
  check_text hash text f = check (hash text) text f
