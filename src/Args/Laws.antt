-- ===== src/Args/Laws.antt =====
-- What `rfbProcessArguments` of libvncserver/cargs.c does to the whole command line.
use Prim.Native.String.{String}
use libvncserver.Base.{
  take_front, drop_front, append_snoc, length_snoc, length-drop, ℕ, zero, suc, ◌+◌, ◌≤◌, Bool, true,
  false, List, [], ◌∷◌, ◌++◌, ◌≡◌, refl, arith, ap, ◌∙◌, length, drop, Option, none, some, ◌⊎◌, inl,
  inr, ◌==◌, Option-cases,
}
use libvncserver.Args.{
  Services, Screen, Action, help, flag, value, decide, classify, purge_arguments, process_loop,
  process_arguments, find_option, first_options, last_options,
}

add_suc : (m n : ℕ) → suc m + n ≡ suc (m + n)
add_suc m n = omega arith

zero_add : (n : ℕ) → 0 + n ≡ n
zero_add n = omega arith

ℕ-cases : (n : ℕ) → (n ≡ 0) ⊎ ((m : ℕ) × (n ≡ suc m))
ℕ-cases zero = inl refl
ℕ-cases (suc n) = inr (n, refl)

module _ {A : Type 0} where
  drop-append : (pre rest : List A) (n : ℕ) → drop (length pre + n) (pre ++ rest) ≡ drop n rest
  drop-append [] rest n = ap (λ m. drop m rest) (zero_add n)
  drop-append (a ∷ pre) rest n =
      ap (λ m. drop m (a ∷ (pre ++ rest))) (add_suc (length pre) n) ∙ drop-append pre rest n

pub purge_behind :
    (pre rest : List String) (n : ℕ)
    → purge_arguments (length pre) n (pre ++ rest) ≡ pre ++ drop n rest
unfolding purge_arguments
purge_behind pre rest n = rw (take_front pre rest, drop-append pre rest n)

-- The option of a name: the first of the two tables together.
abbrev pub option_of : Services → String → Option Action
option_of k = find_option (first_options k ++ last_options k)

-- The command line from left to right: the screen before, the arguments to come, and the return
-- value, the screen and the arguments that are left of those.
pub data Processed (k : Services)
    : Screen → List String → Bool → Screen → List String → Type 0 where
  done : {s : Screen} → Processed k s [] true s []
  -- The option for help ends it, and so does an option without its value, or with one that is refused.
  helps :
      {s : Screen} {a : String} {rest : List String}
      → option_of k a ≡ some help
      → Processed k s (a ∷ rest) false s (a ∷ rest)
  lacks :
      {s : Screen} {a : String} {f : String → Screen → Option Screen}
      → option_of k a ≡ some (value f)
      → Processed k s (a ∷ []) false s (a ∷ [])
  refuses :
      {s : Screen} {a v : String} {rest : List String} {f : String → Screen → Option Screen}
      → option_of k a ≡ some (value f)
      → f v s ≡ none
      → Processed k s (a ∷ v ∷ rest) false s (a ∷ v ∷ rest)
  -- An option that sets a flag is taken out, and one with a value together with it.
  sets :
      {s s' : Screen} {a : String} {rest out : List String} {b : Bool} {f : Screen → Screen}
      → option_of k a ≡ some (flag f)
      → Processed k (f s) rest b s' out
      → Processed k s (a ∷ rest) b s' out
  takes :
      {s s1 s' : Screen} {a v : String} {rest out : List String} {b : Bool}
      {f : String → Screen → Option Screen}
      → option_of k a ≡ some (value f)
      → f v s ≡ some s1
      → Processed k s1 rest b s' out
      → Processed k s (a ∷ v ∷ rest) b s' out
  -- What is no option: the extensions handle some arguments, which are taken out, or it is kept.
  handles :
      {s s' : Screen} {a : String} {rest out : List String} {b : Bool} {n : ℕ}
      → option_of k a ≡ none
      → k.handled (a ∷ rest) ≡ suc n
      → Processed k s (drop n rest) b s' out
      → Processed k s (a ∷ rest) b s' out
  keeps :
      {s s' : Screen} {a : String} {rest out : List String} {b : Bool}
      → option_of k a ≡ none
      → k.handled (a ∷ rest) ≡ 0
      → Processed k s rest b s' out
      → Processed k s (a ∷ rest) b s' (a ∷ out)

-- What the loop leaves, behind the arguments that it has passed.
abbrev Leaves : Services → List String → Screen → List String → Bool × Screen × List String → Type 0
Leaves k pre s rest r = (out : List String) × (r.2 ≡ pre ++ out) × Processed k s rest r.0 r.1 out

module _ (k : Services) where
  -- The loop with some fuel leaves what it should.
  abbrev Finishes : ℕ → Type 0
  Finishes fuel =
      (pre : List String) (s : Screen) (rest : List String)
      → length rest ≤ fuel
      → Leaves k pre s rest (process_loop k fuel (length pre) s (pre ++ rest))

  -- The loop behind `n` arguments that are taken out.
  behind-Leaves :
      (fuel : ℕ)
      → Finishes fuel
      → (pre : List String) (s s' : Screen) (all rest : List String) (n : ℕ) → drop n all ≡ rest
      → length rest ≤ fuel
      → ((r : Bool × Screen × List String) (out : List String)
          → Processed k s' rest r.0 r.1 out
          → Processed k s all r.0 r.1 out)
      → Leaves k pre s all
          (process_loop k fuel (length pre) s' (purge_arguments (length pre) n (pre ++ all)))
  behind-Leaves fuel again pre s s' all rest n e h f =
      let r = again pre s' rest h in
      rw (purge_behind pre all n, e)
        (r.0, r.1, f (process_loop k fuel (length pre) s' (pre ++ rest)) r.0 r.2)

  option-Leaves :
      (fuel : ℕ)
      → Finishes fuel
      → (pre : List String) (s : Screen) (a : String) (rest : List String) → length rest ≤ fuel
      → (o : Option Action) → option_of k a ≡ o
      → Leaves k pre s (a ∷ rest) (process_loop k (suc fuel) (length pre) s (pre ++ a ∷ rest))
  unfolding process_loop classify decide
  option-Leaves fuel again pre s a rest h (some help) e =
      rw (process_loop, drop_front pre (a ∷ rest), e) (a ∷ rest, refl, helps e)
  option-Leaves fuel again pre s a rest h (some (flag f)) e =
      rw (process_loop, drop_front pre (a ∷ rest), e)
        (behind-Leaves fuel again pre s (f s) (a ∷ rest) rest 1 refl h (λ r out p. sets e p))
  option-Leaves fuel again pre s a [] h (some (value f)) e =
      rw (process_loop, drop_front pre (a ∷ []), e) (a ∷ [], refl, lacks e)
  option-Leaves fuel again pre s a (v ∷ rest) h (some (value f)) e = elim (Option-cases (f v s)) [
    | inl q ↦
        rw (process_loop, drop_front pre (a ∷ v ∷ rest), e, q) (a ∷ v ∷ rest, refl, refuses e q)
    | inr (s1, q) ↦
        rw (process_loop, drop_front pre (a ∷ v ∷ rest), e, q)
          (behind-Leaves fuel again pre s s1 (a ∷ v ∷ rest) rest 2 refl (omega (arith, h))
            (λ r out p. takes e q p))
  ]
  option-Leaves fuel again pre s a rest h none e = elim (ℕ-cases (k.handled (a ∷ rest))) [
    | inl q ↦
        let r =
          rw (length_snoc pre a, append_snoc pre a rest) at (again (pre ++ a ∷ []) s rest h) in
        rw (process_loop, drop_front pre (a ∷ rest), e, q)
          (a ∷ r.0, r.1 ∙ append_snoc pre a r.0, keeps e q r.2)
    | inr (n, q) ↦
        let t : (suc n == 0) ≡ false = ground arith in
        rw (process_loop, drop_front pre (a ∷ rest), e, q, t)
          (behind-Leaves fuel again pre s s (a ∷ rest) (drop n rest) (suc n) refl
            (omega (arith, h, length-drop n rest)) (λ r out p. handles e q p))
  ]

  loop-Leaves : (fuel : ℕ) → Finishes fuel
  unfolding process_loop
  loop-Leaves zero pre s [] h = ([], refl, done)
  loop-Leaves zero pre s (a ∷ rest) h = absurd (omega (arith, h))
  loop-Leaves (suc fuel) pre s [] h = rw (process_loop, drop_front pre []) ([], refl, done)
  loop-Leaves (suc fuel) pre s (a ∷ rest) h =
      option-Leaves fuel (loop-Leaves fuel) pre s a rest (omega (arith, h)) (option_of k a) refl

  -- `rfbProcessArguments` goes through the command line from left to right and ends, with the
  -- program's name kept in front. An option that sets a flag is taken out, and one with a value together
  -- with its value; at the option for help, at an option whose value is missing, and at one whose value is
  -- refused it returns `FALSE`, and leaves that option and all that follow. Of what is no option, the
  -- arguments that the extensions handle are taken out, and the others are kept in their order. At
  -- the end of the command line it returns `TRUE`.
  pub process_arguments_lem :
      (s : Screen) (name : String) (args : List String)
      → let r = process_arguments k s (name ∷ args) in
        (out : List String) × (r.2 ≡ name ∷ out) × Processed k s args r.0 r.1 out
  unfolding process_arguments
  process_arguments_lem s name args =
      loop-Leaves (length (name ∷ args)) (name ∷ []) s args (omega arith)
