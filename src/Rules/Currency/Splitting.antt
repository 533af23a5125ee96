-- ===== src/Rules/Currency/Splitting.antt =====
-- `splitEvenly`: the cascade in closed form, what it conserves and how little it leaves.
use native.Mathlib.Nat.{mod-lt}
use dnd_inventory.Prelude.{
  ℕ, ◌<◌, ◌≡◌, refl, ap, sym, arith, Bool, true, false, ℤ, pos, negsuc, ◌+ℤ◌, ◌-ℤ◌, ◌*ℤ◌, ◌≤ℤ◌,
  ◌<ℤ◌, floor_div, int_laws, parts_of_eq, eqb_ℤ, [], List, ◌∷◌, if◌then◌else◌, ltb_ℤ, *ℤ-+ℤ,
  *ℤ_left_comm,
}
use dnd_inventory.Result.{ok}
use dnd_inventory.Rules.Currency.{
  Denom, Currency, full, to_copper, get, put, zero_currency, denoms_largest_first, cascade,
  split_step, split_loop, split_evenly,
}
use dnd_inventory.Rules.Currency.Copper.{IsNonneg, pos_mul, remaining_lem}

add_nothing : (v l f : ℤ) → eqb_ℤ l (pos 0) ≡ true → v +ℤ l *ℤ f ≡ v
add_nothing v l f h = let e : l ≡ pos 0 = ground arith in rw e (omega int_laws)

-- Carrying a leftover of nothing changes nothing, so the early `continue` may be left out.
carry_nothing :
    (next : Denom) (l f : ℤ) (w : Currency)
    → eqb_ℤ l (pos 0) ≡ true
    → put next (get next w +ℤ l *ℤ f) w ≡ w
carry_nothing Denom.cp l f w h = rw (add_nothing w.cp l f h)
carry_nothing Denom.sp l f w h = rw (add_nothing w.sp l f h)
carry_nothing Denom.ep l f w h = rw (add_nothing w.ep l f h)
carry_nothing Denom.gp l f w h = rw (add_nothing w.gp l f h)
carry_nothing Denom.pp l f w h = rw (add_nothing w.pp l f h)

-- What is left of `q` coins after `e` for each of `n`.
abbrev leftover : ℕ → ℤ → ℤ → ℤ
leftover n q e = q -ℤ e *ℤ pos n

-- The coins at each level of the walk: those of the pool and those carried down.
record Levels : Type 0 where
  pub gp : ℤ
  ep : ℤ
  sp : ℤ
  cp : ℤ

abbrev levels : ℕ → Currency → Levels
levels n w =
    let gp = w.gp +ℤ leftover n w.pp (floor_div w.pp n) *ℤ pos 10 in
    let ep = w.ep +ℤ leftover n gp (floor_div gp n) *ℤ pos 2 in
    let sp = w.sp +ℤ leftover n ep (floor_div ep n) *ℤ pos 5 in
    record { gp = gp; ep = ep; sp = sp; cp = w.cp +ℤ leftover n sp (floor_div sp n) *ℤ pos 10 }

abbrev shares : ℕ → Currency → Currency
shares n w = record {
  pp = floor_div w.pp n;
  gp = floor_div (levels n w).gp n;
  ep = floor_div (levels n w).ep n;
  sp = floor_div (levels n w).sp n;
  cp = floor_div (levels n w).cp n;
}

abbrev rest : ℕ → Currency → Currency
rest n w = record zero_currency { cp = leftover n (levels n w).cp (floor_div (levels n w).cp n) }

if_same {ℓ} : {A : Type ℓ} (b : Bool) (x y : A) → (b ≡ true → y ≡ x) → (if b then x else y) ≡ y
if_same true x y h = sym (h refl)
if_same false x y h = refl

-- A round without its early `continue`.
step_next :
    (n : ℕ) (d next : Denom) (ds : List Denom) (w s : Currency)
    → split_step n d (next ∷ ds) (w, s) ≡ (
      cascade d (next ∷ ds) (leftover n (get d w) (floor_div (get d w) n)) (put d (pos 0) w),
      put d (floor_div (get d w) n) s,
    )
unfolding split_step cascade
step_next n d next ds w s =
    let each = floor_div (get d w) n in
    ap (λ v. (v, put d each s))
      (if_same (eqb_ℤ (leftover n (get d w) each) (pos 0)) _ _ (carry_nothing next _ _ _))

zero_of : (v : ℤ) → eqb_ℤ v (pos 0) ≡ true → v ≡ pos 0
zero_of v h = ground arith

step_last :
    (n : ℕ) (w s : Currency)
    → split_step n Denom.cp [] (w, s)
      ≡ (record w { cp = leftover n w.cp (floor_div w.cp n) }, record s { cp = floor_div w.cp n })
unfolding split_step cascade
step_last n w s =
    ap (λ v. (v, record s { cp = floor_div w.cp n }))
      (if_same (eqb_ℤ (leftover n w.cp (floor_div w.cp n)) (pos 0)) _ _
        (λ h. ap (λ v. record w { cp = v }) (zero_of _ h)))

split_loop-closed :
    (n : ℕ) (w : Currency)
    → split_loop n denoms_largest_first (w, zero_currency) ≡ (rest n w, shares n w)
unfolding split_loop
split_loop-closed n w = simp (step_next, step_last) (unfold cascade in refl)

-- Whatever is handed out at each level, the copper is conserved.
mul_copper :
    (n : ℕ) (e : Currency)
    → pos n *ℤ to_copper (full e)
      ≡ e.cp *ℤ pos n *ℤ pos 1
        +ℤ e.sp *ℤ pos n *ℤ pos 10
        +ℤ e.ep *ℤ pos n *ℤ pos 50
        +ℤ e.gp *ℤ pos n *ℤ pos 100
        +ℤ e.pp *ℤ pos n *ℤ pos 1000
unfolding to_copper
mul_copper n e = simp (*ℤ-+ℤ, *ℤ_left_comm)

-- Whatever `e` hands out at each level, the copper is conserved.
conserve :
    (n : ℕ) (w e : Currency) (gp ep sp cp : ℤ)
    → gp ≡ w.gp +ℤ leftover n w.pp e.pp *ℤ pos 10
    → ep ≡ w.ep +ℤ leftover n gp e.gp *ℤ pos 2
    → sp ≡ w.sp +ℤ leftover n ep e.ep *ℤ pos 5
    → cp ≡ w.cp +ℤ leftover n sp e.sp *ℤ pos 10
    → pos n *ℤ to_copper (full e)
        +ℤ to_copper (full (record zero_currency { cp = leftover n cp e.cp }))
      ≡ to_copper (full w)
unfolding to_copper
conserve n w e gp ep sp cp h1 h2 h3 h4 =
    rw (mul_copper n e)
      (omega (int_laws, parts_of_eq h1, parts_of_eq h2, parts_of_eq h3, parts_of_eq h4))

split_evenly-closed :
    (pool : Currency) (n : ℕ) → 0 < n → split_evenly pool (pos n) ≡ ok (shares n pool, rest n pool)
unfolding split_evenly
split_evenly-closed pool n h =
    let enough : ltb_ℤ (pos n) (pos 1) ≡ false = ground arith in
    rw enough (ap (λ st. ok (st.1, st.0)) (split_loop-closed n pool))

-- A nonnegative amount that `n` shares leave is below `n`.
leftover_bounds :
    (n : ℕ) (q : ℤ)
    → 0 < n
    → pos 0 ≤ℤ q
    → (pos 0 ≤ℤ leftover n q (floor_div q n))
      × (leftover n q (floor_div q n) <ℤ pos n)
      × (pos 0 ≤ℤ floor_div q n)
unfolding floor_div
leftover_bounds n (pos a) h p = rw remaining_lem (omega (arith, mod-lt a h))
leftover_bounds n (negsuc a) h p = absurd (omega arith)

carry_nonneg : (v l : ℤ) (k : ℕ) → pos 0 ≤ℤ v → pos 0 ≤ℤ l → pos 0 ≤ℤ v +ℤ l *ℤ pos k
carry_nonneg (pos v) (pos l) k p q = rw pos_mul (omega int_laws)
carry_nonneg (negsuc v) _ k p q = absurd (omega arith)
carry_nonneg _ (negsuc l) k p q = absurd (omega arith)

pub record Split (pool : Currency) (n : ℕ) (share remainder : Currency) : Type 0 where
  pub conserved :
      pos n *ℤ to_copper (full share) +ℤ to_copper (full remainder) ≡ to_copper (full pool)
  pub share_nonneg : IsNonneg share
  pub only_copper : remainder ≡ record zero_currency { cp = remainder.cp }
  pub rest_nonneg : pos 0 ≤ℤ remainder.cp
  pub rest_small : remainder.cp <ℤ pos n

module _ (n : ℕ) (w : Currency) (h : 0 < n) (p : IsNonneg w) where
  below_pp : pos 0 ≤ℤ (levels n w).gp
  below_pp = carry_nonneg _ _ 10 p.gp (leftover_bounds n w.pp h p.pp).0

  below_gp : pos 0 ≤ℤ (levels n w).ep
  below_gp = carry_nonneg _ _ 2 p.ep (leftover_bounds n (levels n w).gp h below_pp).0

  below_ep : pos 0 ≤ℤ (levels n w).sp
  below_ep = carry_nonneg _ _ 5 p.sp (leftover_bounds n (levels n w).ep h below_gp).0

  below_sp : pos 0 ≤ℤ (levels n w).cp
  below_sp = carry_nonneg _ _ 10 p.cp (leftover_bounds n (levels n w).sp h below_ep).0

  shares-Split : Split w n (shares n w) (rest n w)
  shares-Split = record {
    conserved = conserve n w (shares n w) _ _ _ _ refl refl refl refl;
    share_nonneg = record {
      cp = (leftover_bounds n (levels n w).cp h below_sp).2;
      sp = (leftover_bounds n (levels n w).sp h below_ep).2;
      ep = (leftover_bounds n (levels n w).ep h below_gp).2;
      gp = (leftover_bounds n (levels n w).gp h below_pp).2;
      pp = (leftover_bounds n w.pp h p.pp).2;
    };
    only_copper = refl;
    rest_nonneg = (leftover_bounds n (levels n w).cp h below_sp).0;
    rest_small = (leftover_bounds n (levels n w).cp h below_sp).1;
  }

-- Dividing a pool with no negative denomination between one recipient or more succeeds: the shares
-- and the remainder together are worth the pool, no share has a negative denomination, and the
-- remainder is fewer copper pieces than there are recipients, with no other coin.
pub split_evenly-total :
    (pool : Currency) (n : ℕ)
    → 0 < n
    → IsNonneg pool
    → (share : Currency) × (remainder : Currency) × (split_evenly pool (pos n)
        ≡ ok (share, remainder))
      × Split pool n share remainder
split_evenly-total pool n h p =
    (shares n pool, rest n pool, split_evenly-closed pool n h, shares-Split n pool h p)
