-- ===== src/Escrow/Solvency/Total.antt =====
-- The sum of the escrow balances under a write of one program.
use wave_flow.Common.{
  ℕ, zero, suc, ◌≤◌, ◌<◌, ◌≡◌, refl, inl, inr, Option, none, some, arith, ◌==◌, Bool-cases, ap, ltb,
  sym,
}
use wave_flow.Common.Int.{ℤ, pos, ◌+ℤ◌, ◌≤ℤ◌, int_laws, parts_of_eq}
use wave_flow.Escrow.Types.{Program}
use wave_flow.Escrow.Storage.{put}

abbrev pub Programs : Type 0
Programs = ℕ → Option Program

abbrev pub escrow_of : Option Program → ℤ
escrow_of none = pos 0
escrow_of (some p) = p.escrow_balance

-- The escrow of the programs with an id below `n`.
unfoldable pub escrow_total : ℕ → Programs → ℤ
escrow_total zero ps = pos 0
escrow_total (suc n) ps = escrow_total n ps +ℤ escrow_of (ps n)

abbrev pub HasNoDebt : Programs → Type 0
HasNoDebt ps = (i : ℕ) → pos 0 ≤ℤ escrow_of (ps i)

escrow_total-put_above :
    (n p : ℕ) (v : Program) (ps : Programs)
    → n ≤ p
    → escrow_total n (put p v ps) ≡ escrow_total n ps
unfolding escrow_total
escrow_total-put_above zero p v ps h = refl
escrow_total-put_above (suc n) p v ps h = ground (arith, escrow_total-put_above n p v ps)

escrow_total-put :
    (n p : ℕ) (v : Program) (ps : Programs)
    → p < n
    → escrow_total n (put p v ps) +ℤ escrow_of (ps p) ≡ escrow_total n ps +ℤ v.escrow_balance
unfolding escrow_total
escrow_total-put zero p v ps h = absurd (omega arith)
escrow_total-put (suc n) p v ps h = elim (Bool-cases (n == p)) [
  | inl same ↦
      let n≡p : n ≡ p = ground arith in
      let above = escrow_total-put_above n p v ps (omega arith) in
      let written : escrow_of (put p v ps n) ≡ v.escrow_balance = ground arith in
      let old : escrow_of (ps p) ≡ escrow_of (ps n) = ap (λ i. escrow_of (ps i)) (sym n≡p) in
      rw (above, written, old) (omega int_laws)
  | inr other ↦
      let kept : escrow_of (put p v ps n) ≡ escrow_of (ps n) = ground arith in
      let below = escrow_total-put n p v ps (ground arith) in
      rw kept (omega (int_laws, parts_of_eq _ _ below))
]

escrow_total_mono :
    (n m : ℕ) (ps : Programs) → HasNoDebt ps → n ≤ m → escrow_total n ps ≤ℤ escrow_total m ps
unfolding escrow_total
escrow_total_mono zero zero ps h le = omega arith
escrow_total_mono (suc n) zero ps h le = absurd (omega arith)
escrow_total_mono n (suc m) ps h le = elim (Bool-cases (n == suc m)) [
  | inl same ↦ let n≡m : n ≡ suc m = ground arith in rw n≡m (omega arith)
  | inr other ↦ omega (int_laws, escrow_total_mono n m ps h (ground arith), h m)
]

-- What one program holds, and what those before it hold, is within the total.
escrow_of-le :
    (n p : ℕ) (ps : Programs)
    → HasNoDebt ps
    → n ≤ p
    → escrow_total n ps +ℤ escrow_of (ps p) ≤ℤ escrow_total (suc p) ps
unfolding escrow_total
escrow_of-le n p ps h le = omega (int_laws, escrow_total_mono n p ps h le)

-- A program may be written where its escrow grows by no more than the holdings do.
pub put_covered :
    (p : ℕ) (v : Program) (ps : Programs) (b b' : ℤ)
    → HasNoDebt ps
    → pos 0 ≤ℤ v.escrow_balance
    → v.escrow_balance +ℤ b ≤ℤ escrow_of (ps p) +ℤ b'
    → ((n : ℕ) → escrow_total n ps ≤ℤ b)
    → (n : ℕ) → escrow_total n (put p v ps) ≤ℤ b'
put_covered p v ps b b' debt positive grows covered n = elim (Bool-cases (ltb p n)) [
  | inl below ↦
      omega (int_laws, parts_of_eq _ _ (escrow_total-put n p v ps (ground arith)), covered n)
  | inr above ↦
      let le : n ≤ p = ground arith in
      let kept = escrow_total-put_above n p v ps le in
      let held = escrow_of-le n p ps debt le in
      let within = covered (suc p) in rw kept (omega int_laws)
]

pub put-HasNoDebt :
    (p : ℕ) (v : Program) (ps : Programs)
    → HasNoDebt ps
    → pos 0 ≤ℤ v.escrow_balance
    → HasNoDebt (put p v ps)
put-HasNoDebt p v ps debt positive i = ground (arith, debt i)

pub escrow_total-zero :
    (n : ℕ) (ps : Programs) → ((i : ℕ) → escrow_of (ps i) ≡ pos 0) → escrow_total n ps ≡ pos 0
unfolding escrow_total
escrow_total-zero zero ps h = refl
escrow_total-zero (suc n) ps h = rw (escrow_total-zero n ps h, h n) (omega int_laws)
