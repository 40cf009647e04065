-- ===== src/Tests/Handle.antt =====
-- Handles at small inputs. Stand-ins take the place of Ed25519 and of the memory-hard hash.
use ephemera_social.Base.{
  ℕ, ◌+◌, ◌≡◌, ◌≤◌, ◌<◌, ◌↔◌, refl, [], ◌∷◌, ◌++◌, none, some, true, false, leb, if◌then◌else◌,
  same, same_self, Bytes, codes, length, list_ord, nat_ord, arith, any, ok, err, wrapping_add,
  to_ascii_lowercase, starts_with, ends_with, contains_text, utf8,
}
use mathlib.Core.List.Perm
use ephemera_social.Map.{get, insert}
use ephemera_social.Signing.{Signing}
use ephemera_social.Pow.Argon
use ephemera_social.Pow.Argon.{PowStamp, nonce_at}
use ephemera_social.Handle.Format.{
  low, validate_handle_format, is_reserved, structural_rules, handle_ttl_secs, build_pow_challenge,
  calculate_pow_difficulty, reserved_handles,
}
use ephemera_social.Handle.Format.Grammar.{matches_grammar, validate_handle_format-grammar}
use ephemera_social.Handle.Registry
use ephemera_social.Handle.Registry.{
  Handle, HandleRegistry, gc, auto_renew, insert_validated, lookup, lookup_by_owner, expired,
  invalid_pow, is_expired_at,
}
use ephemera_social.Handle.Registry.Keyed.{
  registered, build, register, register_with_difficulty, renew, release, validate,
}
use ephemera_social.Handle.Registry.Links.{IsConsistent, IsLinked}
use ephemera_social.Handle.Registry.Exclusive.{registry_ops-IsConsistent, one_handle}
use ephemera_social.Handle.Registry.Accepted.{register-validate, renew-refused}
use ephemera_social.Handle.Registry.Conflict.{
  insert_all, insert_all-perm, insert_validated-IsLinked, insert_validated-two, live_claim,
}

ed25519 : Signing
ed25519 = record {
  public_key = λ secret. 7 ∷ secret;
  sign = λ secret m. (7 ∷ secret) ++ m;
  verify = λ key m signature. same signature (key ++ m);
  verify_sign = λ secret m. same_self ((7 ∷ secret) ++ m);
}

-- Sixteen zero bits, for every nonce.
pow_hash : Bytes → Bytes → Bytes
pow_hash challenge nonce = 0 ∷ 0 ∷ []

validate_handle_format-grammar_example : (validate_handle_format (codes "a_1b") ≡ ok tt) ↔ (
    (3 ≤ length (codes "a_1b"))
    × (length (codes "a_1b") ≤ 20)
    × (matches_grammar (codes "a_1b") ≡ true)
    × (is_reserved (codes "a_1b") ≡ false))
validate_handle_format-grammar_example = validate_handle_format-grammar (codes "a_1b")

new-IsConsistent : IsConsistent Registry.new
unfolding Registry.new get
new-IsConsistent = (λ o. refl, λ n. refl)

registry_ops-IsConsistent_example :
    IsConsistent
      (register_with_difficulty ed25519 pow_hash 1 1000 (codes "alice") (1 ∷ []) low Registry.new).0
    × IsConsistent (register ed25519 pow_hash 1 1000 (codes "alice") (1 ∷ []) Registry.new).0
    × IsConsistent (renew ed25519 pow_hash 1 1000 (codes "alice") (1 ∷ []) Registry.new).0
    × IsConsistent (release ed25519 pow_hash 1000 (codes "alice") (1 ∷ []) Registry.new).0
    × IsConsistent (gc 1000 Registry.new)
    × IsConsistent (auto_renew 1000 (1 ∷ []) Registry.new)
registry_ops-IsConsistent_example =
    registry_ops-IsConsistent ed25519 pow_hash 1 1000 (codes "alice") (1 ∷ []) low Registry.new
      new-IsConsistent

abbrev stamp : ℕ → PowStamp
stamp difficulty = record {
  challenge = build_pow_challenge (codes "alice") (7 ∷ 1 ∷ []) 1000;
  nonce = nonce_at 0;
  difficulty = difficulty;
}

abbrev alice : Handle
alice = build ed25519 pow_hash 1000 (codes "alice") (1 ∷ []) (stamp 11)

abbrev held : HandleRegistry
held = (register ed25519 pow_hash 1 1000 (codes "Alice") (1 ∷ []) Registry.new).0

registers :
    register ed25519 pow_hash 1 1000 (codes "Alice") (1 ∷ []) Registry.new
    ≡ (held, registered (ok alice))
unfolding register renew Registry.new ed25519 pow_hash validate_handle_format structural_rules
    reserved_handles any calculate_pow_difficulty to_ascii_lowercase starts_with ends_with
    contains_text utf8 get insert Argon.generate_pow
registers = refl

register-validate_example :
    (lookup (codes "Alice") held ≡ some alice)
    × ((validate ed25519 pow_hash 2000 alice ≡ ok tt) ↔ (2000 < 1000 + handle_ttl_secs))
register-validate_example =
    register-validate ed25519 pow_hash 1 1000 2000 (codes "Alice") (1 ∷ []) Registry.new held alice
      (omega arith) registers

abbrev renewed_alice : Handle
renewed_alice =
    record (build ed25519 pow_hash 2000 (codes "alice") (1 ∷ []) (record {
      challenge = build_pow_challenge (codes "alice") (7 ∷ 1 ∷ []) 2000;
      nonce = nonce_at 0;
      difficulty = 5;
    })) { name = codes "alice" }

abbrev renewed_registry : HandleRegistry
renewed_registry = (renew ed25519 pow_hash 1 2000 (codes "alice") (1 ∷ []) held).0

alice_format : validate_handle_format (codes "alice") ≡ ok tt
unfolding validate_handle_format structural_rules reserved_handles any starts_with ends_with
    contains_text utf8
alice_format = refl

alice_held : get (codes "alice") held.handles ≡ some alice
unfolding register renew Registry.new ed25519 pow_hash validate_handle_format structural_rules
    reserved_handles any calculate_pow_difficulty to_ascii_lowercase starts_with ends_with
    contains_text utf8 get insert Argon.generate_pow
alice_held = refl

renews :
    renew ed25519 pow_hash 1 2000 (codes "alice") (1 ∷ []) held
    ≡ (renewed_registry, registered (ok renewed_alice))
unfolding register renew Registry.new ed25519 pow_hash validate_handle_format structural_rules
    reserved_handles any calculate_pow_difficulty to_ascii_lowercase starts_with ends_with
    contains_text utf8 get insert Argon.generate_pow
renews = refl

renew-refused_example : validate ed25519 pow_hash 3000 renewed_alice ≡ (
    if leb (wrapping_add 2000 handle_ttl_secs) 3000
    then err (expired (codes "alice"))
    else err invalid_pow)
renew-refused_example =
    renew-refused ed25519 pow_hash 1 2000 3000 (codes "alice") (1 ∷ []) held renewed_registry alice
      renewed_alice alice_format alice_held refl renews

held-IsConsistent : IsConsistent held
held-IsConsistent =
    (registry_ops-IsConsistent ed25519 pow_hash 1 1000 (codes "Alice") (1 ∷ []) low Registry.new
      new-IsConsistent).1

one_handle_example : (codes "alice" ≡ codes "alice") × (alice ≡ alice)
one_handle_example =
    one_handle (codes "alice") (codes "alice") alice alice held held-IsConsistent alice_held
      alice_held refl

-- Another handle of the same owner, and one with an earlier claim to the first name.
abbrev second : Handle
second = record alice { name = codes "other" }

abbrev earlier_claim : Handle
earlier_claim = record alice { owner = 9 ∷ []; registered_at = 500 }

other_free : get (codes "other") held.handles ≡ none
unfolding register renew Registry.new ed25519 pow_hash validate_handle_format structural_rules
    reserved_handles any calculate_pow_difficulty to_ascii_lowercase starts_with ends_with
    contains_text utf8 get insert Argon.generate_pow
other_free = refl

insert_validated-two_example :
    (get (codes "alice") (insert_validated 2000 second held).0.handles ≡ some alice)
    × (get (codes "other") (insert_validated 2000 second held).0.handles ≡ some second)
    × (lookup_by_owner alice.owner (insert_validated 2000 second held).0 ≡ some second)
insert_validated-two_example =
    insert_validated-two 2000 alice second held alice_held other_free refl

insert_validated-IsLinked_example : IsLinked (insert_validated 2000 second held).0
insert_validated-IsLinked_example = insert_validated-IsLinked 2000 second held held-IsConsistent.0

insert_all-perm_example :
    live_claim 2000
      (get (codes "alice") (insert_all 2000 (alice ∷ earlier_claim ∷ []) Registry.new).handles)
    ≡ live_claim 2000
        (get (codes "alice") (insert_all 2000 (earlier_claim ∷ alice ∷ []) Registry.new).handles)
insert_all-perm_example =
    insert_all-perm 2000 (codes "alice") (alice ∷ earlier_claim ∷ []) (earlier_claim ∷ alice ∷ [])
      Registry.new ((refl, refl), ((refl, refl), tt)) ((refl, refl), ((refl, refl), tt))
      (Perm.swap earlier_claim alice [])
