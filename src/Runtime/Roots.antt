-- ===== src/Runtime/Roots.antt =====
-- runtime/runtime.cpp, `runtime_gc_poll`: which live roots the poll reports.
use supreme_doodle.Common.{
  String, ℕ, zero, suc, ◌+◌, ◌<◌, ◌≤◌, ◌≡◌, ◌↔◌, refl, ◌∙◌, sym, ap, ◌⊎◌, inl, inr, Option, none,
  some, List, [], ◌∷◌, ◌++◌, arith, Bool-cases, ◌==◌, ==_iff,
}
use mathlib.Core.Path.{subst}
use supreme_doodle.Runtime.{
  State, Library, done, Frame, FrameInfo, Event, live_root, poll_begin, poll_end, known_frame,
  unknown_frame, frame_line, slot_address, base_pointer, load64, report_slots, report_frame,
  report_frames, runtime_gc_poll, log_events,
}

-- the report of a slot
abbrev root_at : (ℕ → ℕ) → FrameInfo → ℕ → ℕ → Event
root_at m info sp k =
    live_root (slot_address sp (info.slot k)) (info.slot k)
      (load64 m (slot_address sp (info.slot k)))

-- An event reports one of the slots of a frame that the table knows.
pub record IsRoot (lookup : ℕ → Option FrameInfo) (m : ℕ → ℕ) (g : Frame) (e : Event) : Type 0 where
  pub info : FrameInfo
  pub known : lookup g.pc ≡ some info
  pub index : ℕ
  pub in_range : index < info.num_slots
  pub reported : e ≡ root_at m info g.sp index

abbrev pub Among : {A : Type 0} → A → List A → Type 0
Among x [] = ⊥
Among x (y ∷ ys) = (x ≡ y) ⊎ Among x ys

module _ {A : Type 0} where
  Among-left : (x : A) (xs ys : List A) → Among x xs → Among x (xs ++ ys)
  Among-left x [] ys h = absurd h
  Among-left x (y ∷ xs) ys (inl e) = inl e
  Among-left x (y ∷ xs) ys (inr h) = inr (Among-left x xs ys h)

  Among-right : (x : A) (xs ys : List A) → Among x ys → Among x (xs ++ ys)
  Among-right x [] ys h = h
  Among-right x (y ∷ xs) ys h = inr (Among-right x xs ys h)

  Among-append : (x : A) (xs ys : List A) → Among x (xs ++ ys) → Among x xs ⊎ Among x ys
  Among-append x [] ys h = inr h
  Among-append x (y ∷ xs) ys (inl e) = inl (inl e)
  Among-append x (y ∷ xs) ys (inr h) = elim (Among-append x xs ys h) [
    | inl k ↦ inl (inr k)
    | inr k ↦ inr k
  ]

module _ (m : ℕ → ℕ) (info : FrameInfo) (sp : ℕ) (e : Event) where
  slots-Among :
      (i left : ℕ)
      → Among e (report_slots m info sp i left)
      → (k : ℕ) × (k < i + left) × (e ≡ root_at m info sp k)
  unfolding report_slots
  slots-Among i zero h = absurd h
  slots-Among i (suc left) (inl h) = (i, omega arith, h)
  slots-Among i (suc left) (inr h) =
      let (k, l, same) = slots-Among (i + 1) left h in (k, omega arith, same)

  Among-slots :
      (i left k : ℕ)
      → i ≤ k
      → k < i + left
      → e ≡ root_at m info sp k
      → Among e (report_slots m info sp i left)
  unfolding report_slots
  Among-slots i zero k l u same = absurd (omega arith)
  Among-slots i (suc left) k l u same = elim (split i k l) [
    | inl at ↦ inl (same ∙ ap (root_at m info sp) (sym at))
    | inr past ↦ inr (Among-slots (i + 1) left k past (omega arith) same)
  ]
    where
      split : (a b : ℕ) → a ≤ b → (a ≡ b) ⊎ (a + 1 ≤ b)
      split a b h = elim (Bool-cases (a == b)) [
        | inl e ↦ inl ((==_iff a b).0 e)
        | inr e ↦ inr (ground arith)
      ]

module _ (lookup : ℕ → Option FrameInfo) (m : ℕ → ℕ) (a o v : ℕ) where
  abbrev root : Event
  root = live_root a o v

  proc-ne-root :
      (pc : ℕ) (p : Option (String × ℕ))
      → root ≡ elim p as (λ x. Event) [
        | some (name, offset) ↦ known_frame name offset pc
        | none ↦ unknown_frame pc
      ]
      → ⊥
  proc-ne-root pc none h = cc
  proc-ne-root pc (some (name, offset)) h = cc

  info-IsRoot :
      (g : Frame) (i : Option FrameInfo)
      → lookup g.pc ≡ i
      → Among root (elim i as (λ x. List Event) [
        | none ↦ []
        | some info ↦
            frame_line info.frame_size info.num_slots g.sp (base_pointer g.sp info.frame_size)
            ∷ report_slots m info g.sp 0 info.num_slots
      ])
      → IsRoot lookup m g root
  info-IsRoot g none e h = absurd h
  info-IsRoot g (some info) e (inl h) = cc
  info-IsRoot g (some info) e (inr h) =
      let (k, l, same) = slots-Among m info g.sp root 0 info.num_slots h in
      record { info = info; known = e; index = k; in_range = omega arith; reported = same }

  frame-IsRoot : (g : Frame) → Among root (report_frame lookup m g) → IsRoot lookup m g root
  unfolding report_frame
  frame-IsRoot g (inl h) = absurd (proc-ne-root g.pc g.proc h)
  frame-IsRoot g (inr h) = info-IsRoot g (lookup g.pc) refl h

  IsRoot-frame : (g : Frame) → IsRoot lookup m g root → Among root (report_frame lookup m g)
  unfolding report_frame
  IsRoot-frame g r =
      rw (r.known, report_frame)
        (inr (
          inr (
            Among-slots m r.info g.sp root 0 r.info.num_slots r.index (omega arith)
              (omega (arith, r.in_range)) r.reported)))

  frames-IsRoot :
      (f : Frame) (fs : List Frame)
      → Among root (report_frames lookup m f fs)
      → (g : Frame) × Among g (f ∷ fs) × IsRoot lookup m g root
  unfolding report_frames
  frames-IsRoot f [] h = (f, inl refl, frame-IsRoot f h)
  frames-IsRoot f (g ∷ gs) h =
      elim (Among-append root (report_frame lookup m f) (report_frames lookup m g gs) h) [
        | inl k ↦ (f, inl refl, frame-IsRoot f k)
        | inr k ↦ let (x, at, r) = frames-IsRoot g gs k in (x, inr at, r)
      ]

  IsRoot-frames :
      (f : Frame) (fs : List Frame) (g : Frame)
      → Among g (f ∷ fs)
      → IsRoot lookup m g root
      → Among root (report_frames lookup m f fs)
  unfolding report_frames
  IsRoot-frames f [] g (inl e) r = IsRoot-frame f (subst (λ x. IsRoot lookup m x root) e r)
  IsRoot-frames f [] g (inr h) r = absurd h
  IsRoot-frames f (x ∷ xs) g (inl e) r =
      Among-left root (report_frame lookup m f) (report_frames lookup m x xs)
        (IsRoot-frame f (subst (λ y. IsRoot lookup m y root) e r))
  IsRoot-frames f (x ∷ xs) g (inr h) r =
      Among-right root (report_frame lookup m f) (report_frames lookup m x xs)
        (IsRoot-frames x xs g h r)

  poll-IsRoot :
      (first second : ℕ) (f : Frame) (fs : List Frame)
      → Among root (poll_begin first second ∷ report_frames lookup m f fs ++ poll_end ∷ [])
        ↔ ((g : Frame) × Among g (f ∷ fs) × IsRoot lookup m g root)
  poll-IsRoot first second f fs = (
    λ h. among h,
    λ r. inr (
        Among-left root (report_frames lookup m f fs) (poll_end ∷ [])
          (IsRoot-frames f fs r.0 r.1 r.2)),
  )
    where
      among :
          Among root (poll_begin first second ∷ report_frames lookup m f fs ++ poll_end ∷ [])
          → (g : Frame) × Among g (f ∷ fs) × IsRoot lookup m g root
      among (inl e) = cc
      among (inr h) = elim (Among-append root (report_frames lookup m f fs) (poll_end ∷ []) h) [
        | inl k ↦ frames-IsRoot f fs k
        | inr (inl e) ↦ cc
        | inr (inr e) ↦ absurd e
      ]

-- A poll only writes to the error stream, and a live root is among what it writes exactly if it is one of the
-- slots of a frame of the stack that the table of stack maps knows, with the value that the memory has there.
pub gc_poll-IsRoot :
    {Table : Type 0} (lib : Library Table) (first second : ℕ) (f : Frame) (fs : List Frame)
    (s : State Table)
    → (es : List Event) × (runtime_gc_poll lib first second f fs s ≡ done tt (log_events es s))
      × ((a o v : ℕ)
          → Among (live_root a o v) es ↔ (
              (g : Frame) × Among g (f ∷ fs)
              × IsRoot (lib.lookup_return_address s.table) s.memory g (live_root a o v)))
unfolding runtime_gc_poll
gc_poll-IsRoot lib first second f fs s = (
  _,
  refl,
  λ a o v. poll-IsRoot (lib.lookup_return_address s.table) s.memory a o v first second f fs,
)
