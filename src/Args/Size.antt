-- ===== src/Args/Size.antt =====
-- `rfbProcessSizeArguments` of libvncserver/cargs.c.
use Prim.Native.String.{String}
use text.Mathlib.Text.{◌==◌ as str_eq}
use libvncserver.Base.{
  drop_front, append_snoc, length_snoc, ℕ, zero, suc, ◌+◌, ◌≤◌, List, [], ◌∷◌, ◌++◌, ◌≡◌, refl,
  arith, ◌∙◌, length, drop, Option, none, some, if◌then◌else◌,
}
use libvncserver.Base.Int.{ℤ}
use libvncserver.Args.{purge_arguments}
use libvncserver.Args.Laws.{purge_behind}

-- What the pointers `width`, `height` and `bpp` point at.
pub record Sizes : Type 0 where
  pub width : ℤ
  pub height : ℤ
  pub bpp : ℤ

module _ (atoi : String → ℤ) where
  -- The chain of `strcmp`: what an option sets with its value.
  pub size_option : String → Option (String → Sizes → Sizes)
  size_option arg =
      if str_eq arg "-bpp"
      then some (λ v s. record s { bpp = atoi v })
      else if str_eq arg "-width"
      then some (λ v s. record s { width = atoi v })
      else if str_eq arg "-height"
      then some (λ v s. record s { height = atoi v })
      else none

  -- The loop from `i = i1` on, while `i < argc - 1`. At an option `i` is moved on to the value, and
  -- `i - i1`, which is 1, arguments are purged.
  pub size_loop : ℕ → ℕ → Sizes → List String → Sizes × List String
  unfolding size_option purge_arguments
  size_loop zero i s argv = (s, argv)
  size_loop (suc fuel) i s argv = elim (drop i argv) [
    | [] ↦ (s, argv)
    | arg ∷ [] ↦ (s, argv)
    | arg ∷ v ∷ rest ↦ elim (size_option arg) [
      | none ↦ size_loop fuel (i + 1) s argv
      | some set ↦ size_loop fuel i (set v s) (purge_arguments i 1 argv)
    ]
  ]

  -- `rfbProcessSizeArguments`, which always returns `TRUE`
  pub process_size_arguments : Sizes → List String → Sizes × List String
  unfolding size_loop
  process_size_arguments s argv = size_loop (length argv) 1 s argv

  -- The command line from left to right: the sizes before, the arguments to come, the sizes after and
  -- the arguments that are left. The value of an option is looked at again.
  pub data SizeProcessed : Sizes → List String → Sizes → List String → Type 0 where
    no_more : {s : Sizes} → SizeProcessed s [] s []
    last_one : {s : Sizes} {a : String} → SizeProcessed s (a ∷ []) s (a ∷ [])
    passed :
        {s s' : Sizes} {a v : String} {rest out : List String}
        → size_option a ≡ none
        → SizeProcessed s (v ∷ rest) s' out
        → SizeProcessed s (a ∷ v ∷ rest) s' (a ∷ out)
    taken :
        {s s' : Sizes} {a v : String} {rest out : List String} {set : String → Sizes → Sizes}
        → size_option a ≡ some set
        → SizeProcessed (set v s) (v ∷ rest) s' out
        → SizeProcessed s (a ∷ v ∷ rest) s' out

  abbrev Finishes : ℕ → Type 0
  Finishes fuel =
      (pre : List String) (s : Sizes) (rest : List String)
      → length rest ≤ fuel
      → let r = size_loop fuel (length pre) s (pre ++ rest) in
        (out : List String) × (r.1 ≡ pre ++ out) × SizeProcessed s rest r.0 out

  size_round :
      (fuel : ℕ)
      → Finishes fuel
      → (pre : List String) (s : Sizes) (a v : String) (rest : List String)
      → length (v ∷ rest) ≤ fuel
      → (o : Option (String → Sizes → Sizes)) → size_option a ≡ o
      → let r = size_loop (suc fuel) (length pre) s (pre ++ a ∷ v ∷ rest) in
        (out : List String) × (r.1 ≡ pre ++ out) × SizeProcessed s (a ∷ v ∷ rest) r.0 out
  unfolding size_loop
  size_round fuel again pre s a v rest h none e =
      let r =
        rw (length_snoc pre a, append_snoc pre a (v ∷ rest)) at
          (again (pre ++ a ∷ []) s (v ∷ rest) h) in
      rw (size_loop, drop_front pre (a ∷ v ∷ rest), e)
        (a ∷ r.0, r.1 ∙ append_snoc pre a r.0, passed e r.2)
  size_round fuel again pre s a v rest h (some set) e =
      let r = again pre (set v s) (v ∷ rest) h in
      rw (size_loop, drop_front pre (a ∷ v ∷ rest), e, purge_behind pre (a ∷ v ∷ rest) 1)
        (r.0, r.1, taken e r.2)

  size_loop-Finishes : (fuel : ℕ) → Finishes fuel
  unfolding size_loop
  size_loop-Finishes zero pre s [] h = ([], refl, no_more)
  size_loop-Finishes zero pre s (a ∷ rest) h = absurd (omega (arith, h))
  size_loop-Finishes (suc fuel) pre s [] h = rw (size_loop, drop_front pre []) ([], refl, no_more)
  size_loop-Finishes (suc fuel) pre s (a ∷ []) h =
      rw (size_loop, drop_front pre (a ∷ [])) (a ∷ [], refl, last_one)
  size_loop-Finishes (suc fuel) pre s (a ∷ v ∷ rest) h =
      size_round fuel (size_loop-Finishes fuel) pre s a v rest (omega (arith, h)) (size_option a)
        refl

  -- `rfbProcessSizeArguments` goes through the command line from left to right and ends. It takes an
  -- option that has an argument behind it as set to that argument and removes the option alone: its
  -- value is left in the command line, and is looked at as an option in turn.
  pub process_size_arguments_lem :
      (s : Sizes) (name : String) (args : List String)
      → let r = process_size_arguments s (name ∷ args) in
        (out : List String) × (r.1 ≡ name ∷ out) × SizeProcessed s args r.0 out
  unfolding process_size_arguments
  process_size_arguments_lem s name args =
      size_loop-Finishes (length (name ∷ args)) (name ∷ []) s args (omega arith)
