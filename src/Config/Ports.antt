-- ===== src/Config/Ports.antt =====
-- What `ValidateRuntime` accepts (internal/manager/types.go), whatever the order in which Go
-- ranges over the map of ports.
use mathlib.Core.List.{Permᴰ}
use mathlib.Core.List.Permᴰ
use proxyscene.Common.{
  >>=-eq-ok, All, List, [], accepted, any_of, arith, false, int_eqb, int_eqb_iff, negsuc, ok,
  port_conflict, pos, refl, reject_if, subst, sym, ℤ, ◌<◌, ◌↔◌, ◌∙◌, ◌∷◌, ◌≡◌, ◌≢◌, ◌≤◌,
}
use proxyscene.Config.Validate.{check_ports, valid_port}

abbrev pub IsPort : ℤ → Type 0
IsPort (pos n) = (0 < n) × (n ≤ 65535)
IsPort (negsuc n) = ⊥

-- `p` differs from every port of the list.
abbrev pub IsFresh : List ℤ → ℤ → Type 0
IsFresh xs p = All (λ q. p ≢ q) xs

abbrev pub IsDistinct : List ℤ → Type 0
IsDistinct [] = Unit
IsDistinct (x ∷ xs) = IsFresh xs x × IsDistinct xs

valid_port→IsPort : (p : ℤ) → valid_port p ≡ ok tt → IsPort p
unfolding valid_port
valid_port→IsPort (pos n) h = ground arith
valid_port→IsPort (negsuc n) h = cc

IsPort→valid_port : (p : ℤ) → IsPort p → valid_port p ≡ ok tt
unfolding valid_port
IsPort→valid_port (pos n) h = ground arith
IsPort→valid_port (negsuc n) h = absurd h

unmatched : (xs : List ℤ) (p : ℤ) → any_of (int_eqb p) xs ≡ false → IsFresh xs p
unmatched [] p h = tt
unmatched (x ∷ xs) p h = (ground (arith, int_eqb_iff p x), unmatched xs p (ground arith))

any_of_fresh : (xs : List ℤ) (p : ℤ) → IsFresh xs p → any_of (int_eqb p) xs ≡ false
any_of_fresh [] p h = refl
any_of_fresh (x ∷ xs) p h = ground (arith, int_eqb_iff p x, h.0, any_of_fresh xs p h.1)

-- The ports of `seen` and those still to come, apart from one another.
record IsAccepted (seen rest : List ℤ) : Type 0 where
  ports : All IsPort rest
  distinct : IsDistinct rest
  unseen : All (IsFresh seen) rest

unseen_cons :
    (p : ℤ) (seen rest : List ℤ)
    → All (IsFresh (p ∷ seen)) rest
    → IsFresh rest p × All (IsFresh seen) rest
unseen_cons p seen [] h = (tt, tt)
unseen_cons p seen (q ∷ rest) ((f, fs), h) =
    let (a, b) = unseen_cons p seen rest h in ((λ e. f (sym e), a), (fs, b))

cons_unseen :
    (p : ℤ) (seen rest : List ℤ)
    → IsFresh rest p
    → All (IsFresh seen) rest
    → All (IsFresh (p ∷ seen)) rest
cons_unseen p seen [] f h = tt
cons_unseen p seen (q ∷ rest) f h = ((λ e. f.0 (sym e), h.0), cons_unseen p seen rest f.1 h.1)

check_ports→IsAccepted : (seen rest : List ℤ) → check_ports seen rest ≡ ok tt → IsAccepted seen rest
unfolding check_ports
check_ports→IsAccepted seen [] h = record { ports = tt; distinct = tt; unseen = tt }
check_ports→IsAccepted seen (p ∷ rest) h =
    let (u, valid, h1) = >>=-eq-ok (valid_port p) _ h in
    let (w, fresh, h2) = >>=-eq-ok (reject_if (any_of (int_eqb p) seen) port_conflict) _ h1 in
    let r = check_ports→IsAccepted (p ∷ seen) rest h2 in
    let (apart, unseen) = unseen_cons p seen rest r.unseen in
    record {
      ports = (valid_port→IsPort p valid, r.ports);
      distinct = (apart, r.distinct);
      unseen = (unmatched seen p (accepted _ _ fresh), unseen);
    }

IsAccepted→check_ports : (seen rest : List ℤ) → IsAccepted seen rest → check_ports seen rest ≡ ok tt
unfolding check_ports
IsAccepted→check_ports seen [] h = refl
IsAccepted→check_ports seen (p ∷ rest) h = rw (IsPort→valid_port p h.ports.0) (
    rw (any_of_fresh seen p h.unseen.0) (
      IsAccepted→check_ports (p ∷ seen) rest (record {
        ports = h.ports.1;
        distinct = h.distinct.1;
        unseen = cons_unseen p seen rest h.distinct.0 h.unseen.1;
      })))

All-perm {ℓ κ} : {A : Type ℓ} (P : A → Type κ) {xs ys : List A} → Permᴰ xs ys → All P xs → All P ys
All-perm P Permᴰ.nil h = tt
All-perm P (Permᴰ.cons e r) h = (subst P e h.0, All-perm P r h.1)
All-perm P (Permᴰ.swap e f) h = (subst P f h.1.0, (subst P e h.0, h.1.1))
All-perm P (Permᴰ.trans r s) h = All-perm P s (All-perm P r h)

IsDistinct-perm : {xs ys : List ℤ} → Permᴰ xs ys → IsDistinct xs → IsDistinct ys
IsDistinct-perm Permᴰ.nil h = tt
IsDistinct-perm (Permᴰ.cons {a = a} {l₂ = l} e r) h =
    (subst (IsFresh l) e (All-perm (λ q. a ≢ q) r h.0), IsDistinct-perm r h.1)
IsDistinct-perm (Permᴰ.swap {l = l} e f) h = (
  (λ p. h.0.0 (e ∙ sym p ∙ sym f), subst (IsFresh l) f h.1.0),
  (subst (IsFresh l) e h.0.1, h.1.1),
)
IsDistinct-perm (Permᴰ.trans r s) h = IsDistinct-perm s (IsDistinct-perm r h)

unseen_nil : (xs : List ℤ) → All (IsFresh []) xs
unseen_nil [] = tt
unseen_nil (x ∷ xs) = (tt, unseen_nil xs)

-- For ports in any order of the map: the loop accepts them exactly if all lie in 1 to 65535 and no
-- two are equal.
pub check_ports_iff :
    {order ports : List ℤ}
    → Permᴰ order ports
    → (check_ports [] order ≡ ok tt) ↔ (All IsPort ports × IsDistinct ports)
check_ports_iff {order} {ports} r = (
  λ h.
      let a = check_ports→IsAccepted [] order h in
      (All-perm IsPort r a.ports, IsDistinct-perm r a.distinct),
  λ h. IsAccepted→check_ports [] order (record {
    ports = All-perm IsPort (Permᴰ.symm r) h.0;
    distinct = IsDistinct-perm (Permᴰ.symm r) h.1;
    unseen = unseen_nil order;
  }),
)
