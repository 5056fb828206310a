-- ===== src/Passes/TypeCheck/Literals.antt =====
-- compiler/lib/Sema/TypeCheck.cpp: which declared types a number may initialise.
use supreme_doodle.Common.{
  ◌≡◌, refl, sym, ap, ◌∙◌, length, Bool, true, false, Option, none, some, String, append-nil,
  append_assoc, List, [], ◌∷◌, ◌++◌, if◌then◌else◌,
}
use supreme_doodle.Types.{
  QualType, unknown, NativeType, i1, i8, i16, i32, i64, f32, f64, string, get_builtin_type,
}
use supreme_doodle.Location.{SourceLocation}
use supreme_doodle.Ast.{Node, Number}
use supreme_doodle.Basic.{
  Diagnostic, located, error, bad_initializer, float_to_integer, non_numeric,
}
use supreme_doodle.Sema.{Sema, Outcome, done, and_then, pure, ◌>>◌, emit, set_expr_type}
use supreme_doodle.Passes.TypeCheck.{pop_back_n, pop_type_hints, check_number, deduce_var_init}
use supreme_doodle.Passes.TypeCheck.Hints.{pop_back_n-length, pop_type_hints-some}

-- whether a number, with a fraction or not, initialises a variable of the type
abbrev pub initialises : Bool → NativeType → Bool
initialises is_integer f32 = true
initialises is_integer f64 = true
initialises is_integer string = false
initialises is_integer i8 = false
initialises is_integer t = is_integer

-- the diagnostics of the literal, and those of the comparison with its type
abbrev pub complaints : SourceLocation → Node → Bool → NativeType → List Diagnostic
complaints loc n true i8 =
    located error (bad_initializer (get_builtin_type i8) (get_builtin_type i1)) loc ∷ []
complaints loc n b string =
    located error non_numeric n.loc
    ∷ located error (bad_initializer (get_builtin_type string) unknown) loc
    ∷ []
complaints loc n b t =
    if initialises b t
    then []
    else located error (float_to_integer t) n.loc
      ∷ located error (bad_initializer (get_builtin_type t) unknown) loc
      ∷ []

abbrev pub answer : Outcome QualType → Option QualType
answer (done q s) = some q
answer _ = none

abbrev pub diags_of : Outcome QualType → List Diagnostic
diags_of (done q s) = s.diags
diags_of _ = []

abbrev pub Initialised :
    SourceLocation → Node → Bool → NativeType → Sema → Outcome QualType → Type 0
Initialised loc n b t s o =
    (answer o ≡ some (if initialises b t then get_builtin_type t else unknown))
    × (diags_of o ≡ s.diags ++ complaints loc n b t)

module _ (loc : SourceLocation) (n : Node) (k : String) (s : Sema) where
  abbrev initialise : Bool → NativeType → Outcome QualType
  initialise b t =
      deduce_var_init loc (get_builtin_type t)
        (some (check_number n (record { text = k; is_integer = b }))) s

  both_steps :
      (xs : List Diagnostic) (a b : Diagnostic) → (xs ++ a ∷ []) ++ b ∷ [] ≡ xs ++ a ∷ b ∷ []
  both_steps xs a b = append_assoc xs (a ∷ []) (b ∷ [])

  -- the end of the guard, below which there is one hint more
  settled :
      (q t : QualType) (u : Sema)
      → u.hints ≡ q ∷ s.hints
      → (ds : List Diagnostic) → u.diags ≡ ds
      → (answer ((pop_type_hints (length s.hints) >> pure t) u) ≡ some t)
        × (diags_of ((pop_type_hints (length s.hints) >> pure t) u) ≡ ds)
  settled q t u at ds e =
      let (y, left) = pop_back_n-length q s.hints in
      let popped =
        pop_type_hints-some (length s.hints) u (y ∷ [])
          (ap (pop_back_n (length s.hints)) at ∙ left) in
      (
        ap (λ o. answer (and_then o (λ _. pure t))) popped,
        ap (λ o. diags_of (and_then o (λ _. pure t))) popped ∙ e,
      )

  initialised : (b : Bool) (t : NativeType) → Initialised loc n b t s (initialise b t)
  unfolding deduce_var_init check_number emit set_expr_type
  initialised true i1 = settled (get_builtin_type i1) _ _ refl _ (sym (append-nil s.diags))
  initialised true i8 = settled (get_builtin_type i8) _ _ refl _ (refl)
  initialised true i16 = settled (get_builtin_type i16) _ _ refl _ (sym (append-nil s.diags))
  initialised true i32 = settled (get_builtin_type i32) _ _ refl _ (sym (append-nil s.diags))
  initialised true i64 = settled (get_builtin_type i64) _ _ refl _ (sym (append-nil s.diags))
  initialised true f32 = settled (get_builtin_type f32) _ _ refl _ (sym (append-nil s.diags))
  initialised true f64 = settled (get_builtin_type f64) _ _ refl _ (sym (append-nil s.diags))
  initialised true string = settled (get_builtin_type string) _ _ refl _ (both_steps s.diags _ _)
  initialised false f32 = settled (get_builtin_type f32) _ _ refl _ (sym (append-nil s.diags))
  initialised false f64 = settled (get_builtin_type f64) _ _ refl _ (sym (append-nil s.diags))
  initialised false i1 = settled (get_builtin_type i1) _ _ refl _ (both_steps s.diags _ _)
  initialised false i8 = settled (get_builtin_type i8) _ _ refl _ (both_steps s.diags _ _)
  initialised false i16 = settled (get_builtin_type i16) _ _ refl _ (both_steps s.diags _ _)
  initialised false i32 = settled (get_builtin_type i32) _ _ refl _ (both_steps s.diags _ _)
  initialised false i64 = settled (get_builtin_type i64) _ _ refl _ (both_steps s.diags _ _)
  initialised false string = settled (get_builtin_type string) _ _ refl _ (both_steps s.diags _ _)

-- A number that initialises a variable of a declared built-in type gives the variable that type, and no
-- diagnostic, where the type is f32 or f64, or where the number is an integer and the type is i1, i16,
-- i32 or i64. Otherwise the variable has no type and the diagnostics are those listed: for an
-- integer and the type i8 the only one says that i8 is initialised by i1.
pub number_initialises :
    (loc : SourceLocation) (n : Node) (x : Number) (t : NativeType) (s : Sema)
    → Initialised loc n x.is_integer t s
        (deduce_var_init loc (get_builtin_type t) (some (check_number n x)) s)
number_initialises loc n x t s = initialised loc n x.text s x.is_integer t
