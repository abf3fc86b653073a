-- ===== src/Matchmaker/Groups.antt =====
-- The grouping and the order of entries in `tick` of src/tcp/matchmaker.js.
use free_fire.Prelude.{
  ◌≡◌, true, List, [], ◌∷◌, ◌++◌, if◌then◌else◌, leb, All, arith, Bool-cases, inl, inr,
}
use mathlib.Core.List.{Perm, perm_middle, perm_append_singleton}
use mathlib.Core.List.Perm
use free_fire.Matchmaker.Queue.{Mode, same_mode, Entry}

pub record ModeGroup : Type 0 where
  pub mode : Mode
  pub entries : List Entry

-- `groups.get(k).push(e)`, after `groups.set(k, [])` for a key that is new.
unfoldable pub add_entry : Entry → List ModeGroup → List ModeGroup
add_entry e [] = record { mode = e.mode; entries = e ∷ [] } ∷ []
add_entry e (g ∷ gs) =
    if same_mode g.mode e.mode
    then record g { entries = g.entries ++ e ∷ [] } ∷ gs
    else g ∷ add_entry e gs

unfoldable pub group_entries : List Entry → List ModeGroup → List ModeGroup
group_entries [] gs = gs
group_entries (e ∷ es) gs = group_entries es (add_entry e gs)

-- `entries.sort((a, b) => a.joinedAt - b.joinedAt)`, which is stable.
unfoldable pub insert_entry : Entry → List Entry → List Entry
insert_entry e [] = e ∷ []
insert_entry e (x ∷ xs) = if leb e.joined_at x.joined_at then e ∷ x ∷ xs else x ∷ insert_entry e xs

unfoldable pub sort_entries : List Entry → List Entry
unfolding insert_entry
sort_entries [] = []
sort_entries (e ∷ es) = insert_entry e (sort_entries es)

abbrev pub contents : List ModeGroup → List Entry
contents [] = []
contents (g ∷ gs) = g.entries ++ contents gs

add_entry-perm :
    (e : Entry) (gs : List ModeGroup) → Perm (contents (add_entry e gs)) (e ∷ contents gs)
unfolding add_entry
add_entry-perm e [] = Perm.refl _
add_entry-perm e (g ∷ gs) = elim (Bool-cases (same_mode g.mode e.mode)) [
  | inl h ↦ rw h (Perm.append (perm_append_singleton e g.entries) (Perm.refl (contents gs)))
  | inr h ↦ rw h (
      Perm.trans (Perm.append (Perm.refl g.entries) (add_entry-perm e gs))
        (perm_middle {a = e} g.entries (contents gs)))
]

-- Grouping loses no entry and makes none up.
pub group_entries-perm :
    (es : List Entry) (gs : List ModeGroup)
    → Perm (contents (group_entries es gs)) (es ++ contents gs)
unfolding group_entries
group_entries-perm [] gs = Perm.refl _
group_entries-perm (e ∷ es) gs =
    Perm.trans (group_entries-perm es (add_entry e gs))
      (Perm.trans (Perm.append (Perm.refl es) (add_entry-perm e gs)) (perm_middle es (contents gs)))

insert_entry-perm : (e : Entry) (xs : List Entry) → Perm (insert_entry e xs) (e ∷ xs)
unfolding insert_entry
insert_entry-perm e [] = Perm.refl _
insert_entry-perm e (x ∷ xs) = elim (Bool-cases (leb e.joined_at x.joined_at)) [
  | inl h ↦ rw h (Perm.refl _)
  | inr h ↦ rw h (Perm.trans (Perm.cons x (insert_entry-perm e xs)) (Perm.swap e x xs))
]

pub sort_entries-perm : (es : List Entry) → Perm (sort_entries es) es
unfolding sort_entries
sort_entries-perm [] = Perm.refl _
sort_entries-perm (e ∷ es) =
    Perm.trans (insert_entry-perm e (sort_entries es)) (Perm.cons e (sort_entries-perm es))

-- All entries of a group have the group's mode.
abbrev pub OneMode : ModeGroup → Type 0
OneMode g = All (λ e. same_mode g.mode e.mode ≡ true) g.entries

abbrev pub AllOneMode : List ModeGroup → Type 0
AllOneMode [] = Unit
AllOneMode (g ∷ gs) = OneMode g × AllOneMode gs

OneMode-append :
    (m : Mode) (xs : List Entry) (e : Entry)
    → All (λ x. same_mode m x.mode ≡ true) xs
    → same_mode m e.mode ≡ true
    → All (λ x. same_mode m x.mode ≡ true) (xs ++ e ∷ [])
OneMode-append m [] e h k = (k, tt)
OneMode-append m (x ∷ xs) e h k = (h.0, OneMode-append m xs e h.1 k)

same_mode_refl : (m : Mode) → same_mode m m ≡ true
same_mode_refl m = ground arith

add_entry-AllOneMode :
    (e : Entry) (gs : List ModeGroup) → AllOneMode gs → AllOneMode (add_entry e gs)
unfolding add_entry
add_entry-AllOneMode e [] h = ((same_mode_refl e.mode, tt), tt)
add_entry-AllOneMode e (g ∷ gs) h = elim (Bool-cases (same_mode g.mode e.mode)) [
  | inl k ↦ rw k (OneMode-append g.mode g.entries e h.0 k, h.1)
  | inr k ↦ rw k (h.0, add_entry-AllOneMode e gs h.1)
]

-- Every group holds entries of its own mode only.
pub group_entries-AllOneMode :
    (es : List Entry) (gs : List ModeGroup) → AllOneMode gs → AllOneMode (group_entries es gs)
unfolding group_entries
group_entries-AllOneMode [] gs h = h
group_entries-AllOneMode (e ∷ es) gs h =
    group_entries-AllOneMode es (add_entry e gs) (add_entry-AllOneMode e gs h)
