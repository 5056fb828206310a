-- ===== src/Passes/Materialize/Keeps.antt =====
-- compiler/lib/Sema/ResolveGlobalTypePass.cpp, `MaterializeType`: the contract of the visits of types, from
-- contracts of the actions and of the references.
use supreme_doodle.Common.{
  ℕ, ◌≡◌, refl, false, Option, some, List, [], ◌∷◌, ◌++◌, String, insert, contains,
}
use supreme_doodle.Types.{
  QualType, is_unknown, TypeMap, TypeNode, func, object, enum, named, intern_type, get_named_type,
  get_pointer_type, get_array_type, get_func_type, get_object_type, get_enum_type,
}
use supreme_doodle.Ast.{
  Node, AstType, AstNativeType, void, i1, i8, i32, i64, f32, f64, string, unknown as unknown_native,
  Decl, decl_id, use_decl,
}
use supreme_doodle.Basic.{Message, duplicate_field, duplicate_member}
use supreme_doodle.Sema.{Exec, unreachable, null_deref}
use supreme_doodle.Visitor.Contract.{
  Meets, AllMeet, Meets-pure, Meets-fail, Meets-bind, Meets-then, Meets-bool, Meets-if_else,
  Meets-required,
}
use supreme_doodle.Visitor.Contract.Types.{TypesMeet, FieldsMeet, MembersMeet}
use supreme_doodle.Passes.Materialize.{
  native_type, assign, if_known, params_loop, fields_loop, present, materializer, visit_alias,
  follow_decl,
}
use supreme_doodle.Basic.{Diagnostic}
use supreme_doodle.Sema.{emit, set_type, with_types, with_types?}
use supreme_doodle.Ast.{DeclHead}
use supreme_doodle.Visitor.Contract.{Contract}
use supreme_doodle.Visitor.Contract.Types.{AllRefs, visit_type-Meets}
use supreme_doodle.Common.{Option-cases, inl, inr}

abbrev pub IsImmutable : QualType → Type 0
IsImmutable q = q.mutable ≡ false

native_type-IsImmutable : (t : AstNativeType) → IsImmutable (native_type t)
unfolding native_type
native_type-IsImmutable void = refl
native_type-IsImmutable i1 = refl
native_type-IsImmutable i8 = refl
native_type-IsImmutable i32 = refl
native_type-IsImmutable i64 = refl
native_type-IsImmutable f32 = refl
native_type-IsImmutable f64 = refl
native_type-IsImmutable string = refl
native_type-IsImmutable unknown_native = refl

-- What a contract must have of the actions that materialise types.
pub record Materialises (c : Contract) : Type 0 where
  pub emits : (ls : ℕ) (d : Diagnostic) → Meets c ls (λ (a : Unit {0}). Unit {0}) (emit d)
  pub sets : (ls i : ℕ) (q : QualType) → Meets c ls (λ (a : Unit {0}). Unit {0}) (set_type i q)
  pub interns : (ls : ℕ) (n : TypeNode) → Meets c ls IsImmutable (with_types (intern_type n))
  pub points : (ls : ℕ) (q : QualType) → Meets c ls IsImmutable (with_types? (get_pointer_type q))
  pub arrays : (ls : ℕ) (q : QualType) → Meets c ls IsImmutable (with_types? (get_array_type q))
  pub admits_unreachable : c.Admits unreachable

module _ (c : Contract) (acts : Materialises c) (ls : ℕ) where
  abbrev Keeps : Exec QualType → Type 0
  Keeps m = Meets c ls IsImmutable m

  assign-Meets : (n : Node) (t : QualType) → IsImmutable t → Keeps (assign n t)
  unfolding assign
  assign-Meets n t q = Meets-then c (acts.sets ls n.id t) (Meets-pure c t q)

  if_known-Meets :
      (t : QualType) (m : Exec QualType) → IsImmutable t → Keeps m → Keeps (if_known t m)
  if_known-Meets t m q h = Meets-if_else c (is_unknown t) (Meets-pure c t q) h

  params_loop-Meets :
      (ms : List (Exec QualType)) (acc : List QualType) (k : List QualType → Exec QualType)
      → AllMeet c IsImmutable ls ms
      → ((ps : List QualType) → Keeps (k ps))
      → Keeps (params_loop ms acc k)
  unfolding params_loop
  params_loop-Meets [] acc k h hk = hk acc
  params_loop-Meets (m ∷ ms) acc k (h, hs) hk =
      Meets-bind c h (λ t q. if_known-Meets t _ q (params_loop-Meets ms (acc ++ t ∷ []) k hs hk))

  fields_loop-Meets :
      (dup : String → Message) (n : Node) (ms : List (String × Option (Exec QualType)))
      (acc : TypeMap) (k : TypeMap → Exec QualType)
      → MembersMeet c IsImmutable ls ms
      → ((fs : TypeMap) → Keeps (k fs))
      → Keeps (fields_loop dup n ms acc k)
  unfolding fields_loop
  fields_loop-Meets dup n [] acc k h hk = hk acc
  fields_loop-Meets dup n ((name, m) ∷ ms) acc k (h, hs) hk =
      Meets-bind c (Meets-required c IsImmutable ls m h) λ t q. if_known-Meets t _ q (
        Meets-bool c (contains name acc)
          (Meets-then c (acts.emits ls _) (fields_loop-Meets dup n ms acc k hs hk))
          (fields_loop-Meets dup n ms (insert name t acc) k hs hk))

  present-Meets :
      (fs : List (String × Exec QualType))
      → FieldsMeet c IsImmutable ls fs
      → MembersMeet c IsImmutable ls (present fs)
  present-Meets [] h = tt
  present-Meets ((k, m) ∷ fs) (h, hs) = (h, present-Meets fs hs)

module _ (c : Contract) (acts : Materialises c) (P : Node → Type 0)
    (follow : Node → ℕ → Exec QualType)
    (follows : (ls : ℕ) (n : Node) → P n → Meets c ls IsImmutable (follow n ls)) where
  pub materializer-Meets : TypesMeet c IsImmutable P (materializer follow)
  unfolding materializer get_func_type get_object_type get_enum_type
  materializer-Meets = record {
    builtin = λ ls n t. assign-Meets c acts ls n (native_type t) (native_type-IsImmutable t);
    decl_ref = λ ls n k p. follows ls n p;
    access = λ ls n m h. Meets-fail c unreachable acts.admits_unreachable;
    qual = λ ls n m h.
        Meets-bind c h (λ t q. if_known-Meets c acts ls t _ q (assign-Meets c acts ls n t q));
    pointer = λ ls n m h. Meets-bind c h λ t q.
        if_known-Meets c acts ls t _ q
          (Meets-bind c (acts.points ls t) (λ p q. assign-Meets c acts ls n p q));
    array = λ ls n m h. Meets-bind c h λ t q.
        if_known-Meets c acts ls t _ q
          (Meets-bind c (acts.arrays ls t) (λ a q. assign-Meets c acts ls n a q));
    function = λ ls n ms m hs h. params_loop-Meets c acts ls ms [] _ hs λ ps. Meets-bind c h λ r q.
        if_known-Meets c acts ls r _ q
          (Meets-bind c (acts.interns ls (func ps r)) (λ f q. assign-Meets c acts ls n f q));
    object = λ ls n fs hs.
        fields_loop-Meets c acts ls duplicate_field n (present fs) [] _
          (present-Meets c acts ls fs hs)
          λ m. Meets-bind c (acts.interns ls (object m)) (λ o q. assign-Meets c acts ls n o q);
    enum = λ ls n ms hs.
        fields_loop-Meets c acts ls duplicate_member n ms [] _ hs
          λ m. Meets-bind c (acts.interns ls (enum m)) (λ e q. assign-Meets c acts ls n e q);
  }

  -- The declared type of an alias has only references with `P`.
  abbrev pub Follows : Decl → Type 0
  Follows (use_decl h) = (t : AstType) → h.type ≡ some t → AllRefs P t
  Follows d = Unit

  visit_alias-Meets :
      (ls : ℕ) (h : DeclHead)
      → Follows (use_decl h)
      → Meets c ls IsImmutable (visit_alias follow (use_decl h) ls)
  unfolding visit_alias
  visit_alias-Meets ls h p = elim (Option-cases h.type) [
    | inl e ↦ rw (e, visit_alias) (Meets-fail c null_deref c.admits_null)
    | inr (t, e) ↦
        rw (e, visit_alias)
          (visit_type-Meets c IsImmutable P (materializer follow) materializer-Meets t ls (p t e))
  ]

  pub follow_decl-Meets :
      (ls : ℕ) (n : Node) (d : Decl)
      → Follows d
      → Meets c ls IsImmutable (follow_decl follow n d ls)
  unfolding follow_decl get_named_type
  follow_decl-Meets ls n (use_decl h) p =
      Meets-bind c (visit_alias-Meets ls h p) (λ t q. assign-Meets c acts ls n t q)
  follow_decl-Meets ls n d p =
      Meets-bind c (acts.interns ls (named (decl_id d))) (λ t q. assign-Meets c acts ls n t q)
