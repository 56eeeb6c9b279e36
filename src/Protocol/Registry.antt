-- ===== src/Protocol/Registry.antt =====
-- The registry of protocols in source/bee/io/protocol.h, and the checks that ask it.
use cassobee.Base.{
  ℕ, ◌≡◌, ap, refl, arith, Option, none, some, Bool, true, false, ◌==◌, if◌then◌else◌, inl, inr,
  Bool-cases, ==_iff, ◌∙◌,
}
use cassobee.Protocol.{Protocol, Stubs, emplaced, get_protocol, register_protocol}

-- The stub that is there already, if there is one.
abbrev pub or_new : {Body : Type 0} → Option (Protocol Body) → Protocol Body → Protocol Body
or_new none new = new
or_new (some old) new = old

abbrev is_none : {A : Type 0} → Option A → Bool
is_none none = true
is_none (some a) = false

module _ {Body : Type 0} (type : ℕ) (prot : Protocol Body) (stubs : Stubs Body) where
  -- A type that is registered for the first time gets the new stub, one that was registered before
  -- keeps its own. All other types keep theirs, or stay without one.
  pub get_protocol-register_protocol :
      (other : ℕ)
      → get_protocol other (register_protocol type prot stubs).0 ≡ (
          if other == type
          then some (or_new (get_protocol type stubs) prot)
          else get_protocol other stubs)
  unfolding get_protocol register_protocol
  get_protocol-register_protocol other = go (get_protocol type stubs) refl
    where
      go :
          (r : Option (Protocol Body))
          → get_protocol type stubs ≡ r
          → get_protocol other (emplaced (type, prot) stubs r).0
            ≡ (if other == type then some (or_new r prot) else get_protocol other stubs)
      go none new = ground arith
      go (some old) there = elim (Bool-cases (other == type)) [
        | inl same ↦ rw same (ap (λ t. get_protocol t stubs) ((==_iff other type).0 same) ∙ there)
        | inr differs ↦ rw differs refl
      ]

  -- `register_protocol` answers whether the type was new.
  pub register_protocol_new :
      (register_protocol type prot stubs).1 ≡ is_none (get_protocol type stubs)
  unfolding register_protocol
  register_protocol_new = go (get_protocol type stubs)
    where
      go : (r : Option (Protocol Body)) → (emplaced (type, prot) stubs r).1 ≡ is_none r
      go none = refl
      go (some old) = refl
