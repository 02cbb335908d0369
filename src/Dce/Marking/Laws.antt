-- ===== src/Dce/Marking/Laws.antt =====
-- src/ir/optimizer/dce.cpp: which variables are marked in the end.
use erap_sbt.Base.{
  ℕ, ◌≡◌, refl, ap, ◌∙◌, Bool, true, false, ◌||◌, ◌==◌, if◌then◌else◌, List, [], ◌∷◌, Option, none,
  some, Outcome, ok, panics, undefined, ◌>>=◌, arith, Bool-cases, inl, inr,
}
use erap_sbt.Ir.ControlFlow.{CfcInstruction, CfInfo, ijump_info, icall_info, ret_info, CfOp}
use erap_sbt.Dce.Marking.{
  Tracking, mark, mark_each, not_null, firsts, mapped_vars, visit_cf_and_mark_side_effects,
}

-- Whether a variable is among some pointers.
abbrev pub among : ℕ → List (Option ℕ) → Bool
among v [] = false
among v (none ∷ vars) = among v vars
among v (some var ∷ vars) = (v == var) || among v vars

abbrev pub NoNull : List (Option ℕ) → Type 0
NoNull [] = Unit
NoNull (none ∷ vars) = ⊥
NoNull (some var ∷ vars) = NoNull vars

-- The information that belongs to the type, for the operations that leave the known blocks, with a
-- mapping that has no null pointer.
abbrev pub MapsBy : CfcInstruction → CfInfo → Type 0
MapsBy CfcInstruction.ijump (ijump_info i) = NoNull (firsts i.mapping)
MapsBy CfcInstruction.icall (icall_info i) = NoNull (firsts i.mapping)
MapsBy CfcInstruction.return (ret_info i) = NoNull (firsts i.mapping)
MapsBy CfcInstruction.ijump _ = ⊥
MapsBy CfcInstruction.icall _ = ⊥
MapsBy CfcInstruction.return _ = ⊥
MapsBy _ _ = Unit

abbrev pub Maps : List CfOp → Type 0
Maps [] = Unit
Maps (cf ∷ cfs) = MapsBy cf.type cf.info × Maps cfs

-- Whether an operation reads a variable other than to pass it to a known block.
abbrev pub reads_mapping : ℕ → CfcInstruction → CfInfo → Bool
reads_mapping v CfcInstruction.ijump (ijump_info i) = among v (firsts i.mapping)
reads_mapping v CfcInstruction.icall (icall_info i) = among v (firsts i.mapping)
reads_mapping v CfcInstruction.return (ret_info i) = among v (firsts i.mapping)
reads_mapping v _ _ = false

abbrev pub reads : ℕ → List CfOp → Bool
reads v [] = false
reads v (cf ∷ cfs) = among v cf.in_vars || (reads_mapping v cf.type cf.info || reads v cfs)

absorbed : (b x : Bool) → (b ≡ true → x ≡ true) → x ≡ (b || x)
absorbed true x h = h refl
absorbed false x h = refl

if_or : (b x : Bool) → (if b then true else x) ≡ (b || x)
if_or true x = refl
if_or false x = refl

equal_of : (m n : ℕ) → (m == n) ≡ true → m ≡ n
equal_of m n e = ground arith

mark-marks : (v var : ℕ) (t : Tracking) → (mark var t).1.marks v ≡ (v == var || t.marks v)
unfolding mark
mark-marks v var t = elim (Bool-cases (t.marks var)) [
  | inl m ↦ rw m (absorbed (v == var) (t.marks v) (λ e. ap t.marks (equal_of v var e) ∙ m))
  | inr m ↦ rw m (if_or (v == var) (t.marks v))
]

-- A call marks some variables and no others.
abbrev pub Marks : (ℕ → Bool) → Tracking → Outcome (Bool × Tracking) → Type 0
Marks also t (ok (c, t')) = (v : ℕ) → t'.marks v ≡ (also v || t.marks v)
Marks also t panics = ⊥
Marks also t undefined = ⊥

widen-Marks :
    (also also' : ℕ → Bool) (t t' : Tracking) (o : Outcome (Bool × Tracking))
    → ((v : ℕ) → (also v || t'.marks v) ≡ (also' v || t.marks v))
    → Marks also t' o
    → Marks also' t o
widen-Marks also also' t t' (ok (c, t'')) k h = λ v. h v ∙ k v
widen-Marks also also' t t' panics k h = absurd h
widen-Marks also also' t t' undefined k h = absurd h

or_shift : (x y z : Bool) → (x || (y || z)) ≡ ((y || x) || z)
or_shift x y z = ground arith

mark_each-Marks :
    (vars : List (Option ℕ)) (c : Bool) (t : Tracking)
    → NoNull vars
    → Marks (λ v. among v vars) t (mark_each vars c t)
unfolding mark_each
mark_each-Marks [] c t h = λ v. refl
mark_each-Marks (none ∷ vars) c t h = absurd h
mark_each-Marks (some var ∷ vars) c t h =
    widen-Marks (λ v. among v vars) (λ v. (v == var) || among v vars) t (mark var t).1
      (mark_each vars (c || (mark var t).0) (mark var t).1)
      (λ v.
        ap (λ x. among v vars || x) (mark-marks v var t)
        ∙ or_shift (among v vars) (v == var) (t.marks v))
      (mark_each-Marks vars (c || (mark var t).0) (mark var t).1 h)

-- Two calls, one after the other.
bind-Marks :
    (a b : ℕ → Bool) (t : Tracking) (o : Outcome (Bool × Tracking))
    (f : Bool × Tracking → Outcome (Bool × Tracking))
    → Marks a t o
    → ((p : Bool × Tracking) → Marks b p.1 (f p))
    → Marks (λ v. a v || b v) t (o >>= f)
bind-Marks a b t (ok (c, t')) f h k =
    widen-Marks b (λ v. a v || b v) t t' (f (c, t'))
      (λ v. ap (λ x. b v || x) (h v) ∙ or_shift (b v) (a v) (t.marks v)) (k (c, t'))
bind-Marks a b t panics f h k = absurd h
bind-Marks a b t undefined f h k = absurd h

not_null-NoNull : (vars : List (Option ℕ)) → NoNull (not_null vars)
not_null-NoNull [] = tt
not_null-NoNull (none ∷ vars) = not_null-NoNull vars
not_null-NoNull (some var ∷ vars) = not_null-NoNull vars

among-not_null : (v : ℕ) (vars : List (Option ℕ)) → among v (not_null vars) ≡ among v vars
among-not_null v [] = refl
among-not_null v (none ∷ vars) = among-not_null v vars
among-not_null v (some var ∷ vars) = ap (λ x. (v == var) || x) (among-not_null v vars)

-- The variables of the mapping are there, and are the ones that the operation reads.
mapped_vars-reads_mapping :
    (type : CfcInstruction) (info : CfInfo)
    → MapsBy type info
    → (vars : List (Option ℕ)) × (mapped_vars type info ≡ ok vars)
      × NoNull vars
      × ((v : ℕ) → among v vars ≡ reads_mapping v type info)
unfolding mapped_vars
mapped_vars-reads_mapping CfcInstruction.ijump (ijump_info i) h =
    (firsts i.mapping, refl, h, λ v. refl)
mapped_vars-reads_mapping CfcInstruction.icall (icall_info i) h =
    (firsts i.mapping, refl, h, λ v. refl)
mapped_vars-reads_mapping CfcInstruction.return (ret_info i) h =
    (firsts i.mapping, refl, h, λ v. refl)
mapped_vars-reads_mapping CfcInstruction.ijump _ h = absurd h
mapped_vars-reads_mapping CfcInstruction.icall _ h = absurd h
mapped_vars-reads_mapping CfcInstruction.return _ h = absurd h
mapped_vars-reads_mapping _ info h = ([], refl, tt, λ v. refl)

-- For the operations that end a block, of which those that leave the known blocks have the
-- information that belongs to their type and a mapping without null pointers:
-- `visit_cf_and_mark_side_effects` returns, and a variable is marked afterwards exactly if it was
-- marked before, is an input of an operation, or stands in the mapping of an `ijump`, an `icall` or
-- a return.
pub visit_cf_and_mark_side_effects-Marks :
    (cfs : List CfOp) (c : Bool) (t : Tracking)
    → Maps cfs
    → Marks (λ v. reads v cfs) t (visit_cf_and_mark_side_effects cfs c t)
unfolding visit_cf_and_mark_side_effects
visit_cf_and_mark_side_effects-Marks [] c t h = λ v. refl
visit_cf_and_mark_side_effects-Marks (cf ∷ cfs) c t (h, hs) =
    let (vars, e, no_null, k) = mapped_vars-reads_mapping cf.type cf.info h in
    rw e (
      widen-Marks (λ v. among v (not_null cf.in_vars) || (among v vars || reads v cfs))
        (λ v. reads v (cf ∷ cfs)) t t _ (λ v. rw (among-not_null v cf.in_vars, k v) refl)
        (bind-Marks (λ v. among v (not_null cf.in_vars)) (λ v. among v vars || reads v cfs) t
          (mark_each (not_null cf.in_vars) c t) _
          (mark_each-Marks (not_null cf.in_vars) c t (not_null-NoNull cf.in_vars))
          (λ p.
            bind-Marks (λ v. among v vars) (λ v. reads v cfs) p.1 (mark_each vars p.0 p.1) _
              (mark_each-Marks vars p.0 p.1 no_null)
              (λ r. visit_cf_and_mark_side_effects-Marks cfs r.0 r.1 hs))))
