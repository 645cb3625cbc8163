-- ===== src/OciDir/Gc/Locks.antt =====
-- The locks on the garbage collection of a layout.
use regclient.Base.{
  ℕ, ◌+◌, ◌-◌, ◌<◌, ◌≡◌, refl, sym, ap, ◌∙◌, inl, inr, Bool, true, false, ◌&&◌, Option, none, some,
  List, [], ◌∷◌, arith, if◌then◌else◌, Bool-cases,
}
use regclient.Base.Text.{chars_eq_inst, Chars, chars_eq, chars_eq_iff}
use regclient.Base.Maps.{lookup, lookup-insert, lookup-delete, insert, delete}
use regclient.Errs.{Result, ok, err}
use regclient.Ref.{Ref}
use regclient.OciDir.Gc.{
  OciGc, Swept, ModRefs, gc_lock, gc_unlock, ref_mod, collects, Layout, mark, collect, forget,
  conclude, close, lock_entry, unlock_entry, mod_entry,
}

-- What is done to a client, in the order in which the calls get its mutex.
pub data Event : Type 0 where
  locks unlocks modifies : Chars → Event
  closes : ℕ → Bool → Layout → Ref → Event

abbrev refs_behind : ModRefs → Option (Swept × ModRefs) → ModRefs
refs_behind refs none = refs
refs_behind refs (some (swept, refs')) = refs'

unfoldable pub step : ModRefs → Event → ModRefs
step refs (locks p) = gc_lock p refs
step refs (unlocks p) = gc_unlock p refs
step refs (modifies p) = ref_mod p refs
step refs (closes fuel gc s r) = refs_behind refs (close fuel gc s r refs)

unfoldable pub run : ModRefs → List Event → ModRefs
run refs [] = refs
run refs (e ∷ es) = run (step refs e) es

-- The locks that are held on a path: one more for a lock, one less for an unlock.
unfoldable pub held_step : Chars → ℕ → Event → ℕ
held_step p n (locks q) = if chars_eq q p then n + 1 else n
held_step p n (unlocks q) = if chars_eq q p then n - 1 else n
held_step p n (modifies q) = n
held_step p n (closes fuel gc s r) = n

unfoldable pub held : Chars → ℕ → List Event → ℕ
held p n [] = n
held p n (e ∷ es) = held p (held_step p n e) es

abbrev pub locks_in : Option OciGc → ℕ
locks_in none = 0
locks_in (some gc) = gc.locks

no_locks : (o : Option OciGc) → collects o ≡ true → locks_in o ≡ 0
no_locks none c = refl
no_locks (some gc) c = ground (arith, c)

-- A collection forgets a path only where it has no locks.
forget-locks :
    (p path : Chars) (refs : ModRefs) (o : Result (Unit {0})) (removed : List Chars)
    → collects (lookup path refs) ≡ true
    → locks_in (lookup p (forget path refs o removed).1) ≡ locks_in (lookup p refs)
forget-locks p path refs (err e) removed c = refl
forget-locks p path refs (ok done) removed c = elim (Bool-cases (chars_eq path p)) [
  | inl same ↦
      let q : lookup p (delete path refs) ≡ none = lookup-delete path p refs ∙ rw same refl in
      let z : locks_in (lookup p refs) ≡ 0 =
        ap (λ k. locks_in (lookup k refs)) (sym ((chars_eq_iff path p).0 same))
        ∙ no_locks (lookup path refs) c in
      ap locks_in q ∙ sym z
  | inr differ ↦
      let q : lookup p (delete path refs) ≡ lookup p refs =
        lookup-delete path p refs ∙ rw differ refl in
      ap locks_in q
]

refs_behind-forget :
    (p path : Chars) (refs : ModRefs) (o : Result (Unit {0})) (removed : List Chars)
    → locks_in (lookup p (refs_behind refs (some (forget path refs o removed))))
      ≡ locks_in (lookup p (forget path refs o removed).1)
refs_behind-forget p path refs (ok done) removed = refl
refs_behind-forget p path refs (err e) removed = refl

conclude-locks :
    (p : Chars) (s : Layout) (r : Ref) (refs : ModRefs) (dl : Option (Result (List Chars)))
    → collects (lookup r.path refs) ≡ true
    → locks_in (lookup p (refs_behind refs (conclude s r refs dl))) ≡ locks_in (lookup p refs)
conclude-locks p s r refs none c = refl
conclude-locks p s r refs (some dl) c =
    let swept = collect s dl in
    refs_behind-forget p r.path refs swept.0 swept.1 ∙ forget-locks p r.path refs swept.0 swept.1 c

close-locks :
    (p : Chars) (fuel : ℕ) (gc : Bool) (s : Layout) (r : Ref) (refs : ModRefs)
    → locks_in (lookup p (refs_behind refs (close fuel gc s r refs))) ≡ locks_in (lookup p refs)
unfolding close
close-locks p fuel gc s r refs = elim (Bool-cases (gc && collects (lookup r.path refs))) [
  | inl c ↦ rw c (conclude-locks p s r refs (mark fuel s r) (ground (arith, c)))
  | inr c ↦ rw c refl
]

locks_in_if :
    (b : Bool) (gc : OciGc) (o : Option OciGc)
    → locks_in (if b then some gc else o) ≡ (if b then gc.locks else locks_in o)
locks_in_if true gc o = refl
locks_in_if false gc o = refl

-- A store of an entry with `n` locks for a path.
insert-locks :
    (p q : Chars) (gc : OciGc) (refs : ModRefs)
    → locks_in (lookup p (insert q gc refs))
      ≡ (if chars_eq q p then gc.locks else locks_in (lookup p refs))
insert-locks p q gc refs =
    ap locks_in (lookup-insert q p gc refs) ∙ locks_in_if (chars_eq q p) gc (lookup p refs)

-- The locks of a path that is looked up under an equal name.
locks_same :
    (p q : Chars) (refs : ModRefs) (o : Option OciGc)
    → lookup q refs ≡ o
    → chars_eq q p ≡ true
    → locks_in (lookup p refs) ≡ locks_in o
locks_same p q refs o h c =
    ap (λ k. locks_in (lookup k refs)) (sym ((chars_eq_iff q p).0 c)) ∙ ap locks_in h

lock_entry-locks :
    (p q : Chars) (refs : ModRefs) (o : Option OciGc)
    → lookup q refs ≡ o
    → locks_in (lookup p (lock_entry q refs o)) ≡ held_step p (locks_in (lookup p refs)) (locks q)
unfolding held_step
lock_entry-locks p q refs none h = ground (
  arith,
  insert-locks p q (record { is_mod = false; locks = 1 }) refs,
  locks_same p q refs none h,
)
lock_entry-locks p q refs (some gc) h = ground (
  arith,
  insert-locks p q (record gc { locks = gc.locks + 1 }) refs,
  locks_same p q refs (some gc) h,
)

unlock_entry-locks :
    (p q : Chars) (refs : ModRefs) (o : Option OciGc)
    → lookup q refs ≡ o
    → locks_in (lookup p (unlock_entry q refs o))
      ≡ held_step p (locks_in (lookup p refs)) (unlocks q)
unfolding held_step
unlock_entry-locks p q refs none h = ground (arith, locks_same p q refs none h)
unlock_entry-locks p q refs (some gc) h = ground (
  arith,
  insert-locks p q (record gc { locks = gc.locks - 1 }) refs,
  locks_same p q refs (some gc) h,
)

mod_entry-locks :
    (p q : Chars) (refs : ModRefs) (o : Option OciGc)
    → lookup q refs ≡ o
    → locks_in (lookup p (mod_entry q refs o)) ≡ locks_in (lookup p refs)
mod_entry-locks p q refs none h =
    ground (
      arith,
      insert-locks p q (record { is_mod = true; locks = 0 }) refs,
      locks_same p q refs none h,
    )
mod_entry-locks p q refs (some gc) h =
    ground
      (arith, insert-locks p q (record gc { is_mod = true }) refs, locks_same p q refs (some gc) h)

step-locks :
    (p : Chars) (refs : ModRefs) (e : Event)
    → locks_in (lookup p (step refs e)) ≡ held_step p (locks_in (lookup p refs)) e
unfolding step held_step gc_lock gc_unlock ref_mod
step-locks p refs (locks q) = lock_entry-locks p q refs (lookup q refs) refl
step-locks p refs (unlocks q) = unlock_entry-locks p q refs (lookup q refs) refl
step-locks p refs (modifies q) = mod_entry-locks p q refs (lookup q refs) refl
step-locks p refs (closes fuel gc s r) = close-locks p fuel gc s r refs

run-held :
    (p : Chars) (refs : ModRefs) (es : List Event)
    → locks_in (lookup p (run refs es)) ≡ held p (locks_in (lookup p refs)) es
unfolding run held
run-held p refs [] = refl
run-held p refs (e ∷ es) = run-held p (step refs e) es ∙ ap (λ n. held p n es) (step-locks p refs e)

locked : (o : Option OciGc) → 0 < locks_in o → collects o ≡ false
locked none h = absurd (omega arith)
locked (some gc) h = ground (arith, h)

-- After any history of locks, unlocks, modifications and closes of any layouts, a `Close` of a path
-- with more locks than unlocks removes nothing and changes nothing.
pub close-held :
    (es : List Event) (fuel : ℕ) (gc : Bool) (s : Layout) (r : Ref)
    → 0 < held r.path 0 es
    → close fuel gc s r (run [] es) ≡ some ((ok tt, []), run [] es)
unfolding close lookup
close-held es fuel gc s r h =
    let c : collects (lookup r.path (run [] es)) ≡ false =
      locked (lookup r.path (run [] es)) (omega (arith, run-held r.path [] es, h)) in
    ground (arith, c)
