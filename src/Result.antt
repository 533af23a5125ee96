-- ===== src/Result.antt =====
-- Fallible code: a `throw new Error(...)` is an `err` with a constructor for the reason. The
-- message's prefix, the action's name, is known from the function that returns it.
use dnd_inventory.Prelude.{◌≡◌, refl, Bool, true, false, Option, none, some}

pub data Error : Type 0 where
  -- currency.ts, charges.ts, inventory.ts
  negative_cp same_denomination bad_quantity lossy_conversion would_be_negative : Error
  bad_share_count quantity_exceeds_source : Error
  -- reducer/index.ts
  no_state bad_uuid already_exists no_change empty_name same_stash negative_delta : Error
  unknown_item unknown_stash unknown_definition unknown_character unknown_party : Error
  unknown_shop unknown_stock_entry no_holding no_party_stash not_a_party_stash : Error
  protected_stash over_capacity self_reference nested_container container_elsewhere : Error
  not_in_inventory already_in_state missing_split_id not_magic no_free_slot : Error
  no_charges charges_unset insufficient_charges no_recipients : Error
  not_a_member already_has_character dm_only_after_bootstrap party_name_after_bootstrap : Error
  sole_member sole_dm self_kick kick_dm already_member dm_required self_appoint : Error
  banker_set banker_unset target_not_player too_few_members self_transfer : Error
  session_already_current no_current_session unknown_session : Error
  insufficient_stock insufficient_funds no_cost unknown_wish not_homebrew in_use : Error

pub data Result {ℓ} (V : Type ℓ) : Type ℓ where
  err : Error → Result V
  ok : V → Result V

-- `if (c) throw new Error(e)`
abbrev pub throw_if : Bool → Error → Result (Unit {0})
throw_if false reason = ok tt
throw_if true reason = err reason

-- The rest of the handler runs where nothing has been thrown.
infixl 5 ◌>>=◌
abbrev pub ◌>>=◌ {ℓ κ} : {V : Type ℓ} {W : Type κ} → Result V → (V → Result W) → Result W
err reason >>= rest = err reason
ok v >>= rest = rest v

-- `if (x === undefined) throw new Error(e)`
abbrev pub or_throw {ℓ} : {A : Type ℓ} → Option A → Error → Result A
or_throw none e = err e
or_throw (some a) e = ok a

infixl 5 ◌>>◌
abbrev pub ◌>>◌ {ℓ} : {W : Type ℓ} → Result (Unit {0}) → Result W → Result W
check >> rest = check >>= λ _. rest

-- To take a chain that succeeded apart, step by step: what the step returned, and that the rest
-- succeeded, are handed on.
module _ {ℓ κ} {B : Type ℓ} {b : B} {P : Type κ} where
  pub passed :
      (c : Bool) (e : Error) (k : Result B)
      → (throw_if c e >> k) ≡ ok b
      → (c ≡ false → k ≡ ok b → P)
      → P
  passed true e k h go = absurd (cc)
  passed false e k h go = go refl h

  pub found {ℓ'} :
      {A : Type ℓ'} (o : Option A) (e : Error) (f : A → Result B)
      → (or_throw o e >>= f) ≡ ok b
      → ((a : A) → o ≡ some a → f a ≡ ok b → P)
      → P
  found none e f h go = absurd (cc)
  found (some a) e f h go = go a refl h

  pub returned {ℓ'} :
      {A : Type ℓ'} (m : Result A) (f : A → Result B)
      → (m >>= f) ≡ ok b
      → ((a : A) → m ≡ ok a → f a ≡ ok b → P)
      → P
  returned (ok a) f h go = go a refl h
  returned (err e) f h go = absurd (cc)

  pub done : {a : B} → ◌≡◌ {A = Result B} (ok a) (ok b) → (a ≡ b → P) → P
  done h go = go (cc)

-- A guard that was passed.
pub throw_if-ok {ℓ} :
    {B : Type ℓ} (c : Bool) (e : Error) (k : Result B) {b : B}
    → (throw_if c e >> k) ≡ ok b
    → (c ≡ false) × (k ≡ ok b)
throw_if-ok true e k h = cc
throw_if-ok false e k h = (refl, h)
