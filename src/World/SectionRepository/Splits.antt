-- ===== src/World/SectionRepository/Splits.antt =====
-- Which section a session comes into.
use server.Base.{
  ℕ, ◌≡◌, ◌≢◌, ◌≤◌, ◌<◌, List, [], ◌∷◌, some, none, arith, lookup, lookup-assign, lookup-remove_key,
}
use server.World.SectionRepository.{SectionRepository, enter_section, leave_section, find_section}

-- Every section of the table was made.
abbrev AllMade : ℕ → List (ℕ × ℕ) → Type 0
AllMade n [] = Unit
AllMade n (e ∷ es) = (e.1 < n) × AllMade n es

lookup-AllMade : (k n : ℕ) (es : List (ℕ × ℕ)) {h : ℕ} → AllMade n es → lookup k es ≡ some h → h < n
unfolding lookup
lookup-AllMade k n [] a e = absurd (ground arith)
lookup-AllMade k n (x ∷ es) {h} a e = ground (arith, lookup-AllMade k n es {h = h} a.1)

-- After `EnterSection` the map's section is the one that the future has, which is the one that the map had,
-- if any; and other ids keep theirs. So two sessions that enter a map one after the other come into one
-- section.
enter_section-find_section :
    (persistent : ℕ → ℕ) (map_uid session : ℕ) (r : SectionRepository) (id : ℕ)
    → let (h, r') = enter_section persistent map_uid session r in
      (find_section (persistent map_uid) r' ≡ some h)
      × ((g : ℕ) → find_section (persistent map_uid) r ≡ some g → g ≡ h)
      × (id ≢ persistent map_uid → find_section id r' ≡ find_section id r)
      × ((next : ℕ) → (enter_section persistent map_uid next r').0 ≡ h)
unfolding enter_section find_section
enter_section-find_section persistent map_uid session r id =
    let k = persistent map_uid in
    (
      ground (arith, lookup-assign k k r.made r.sections),
      λ g e. ground arith,
      λ ne. ground (arith, lookup-assign id k r.made r.sections),
      λ next. ground (arith, lookup-assign k k r.made r.sections),
    )

-- A map has a section, whose count is still 1 because a second session's entry, posted by `EnterSection`,
-- has not been run there. If the first session leaves now, the section is taken from the map, and a third
-- session that enters the map comes into another section than the second.
pub enter-leave-enter :
    (persistent : ℕ → ℕ) (map_uid first second third : ℕ) (r : SectionRepository) (h : ℕ)
    → AllMade r.made r.sections
    → find_section (persistent map_uid) r ≡ some h
    → r.count h ≤ 1
    → let (h', r') = enter_section persistent map_uid second r in
      let r'' = leave_section persistent map_uid first r' in
      (h' ≡ h)
      × (find_section (persistent map_uid) r'' ≡ none)
      × ((enter_section persistent map_uid third r'').0 ≢ h)
unfolding enter_section leave_section find_section
enter-leave-enter persistent map_uid first second third r h a e c =
    let k = persistent map_uid in
    (
      ground arith,
      ground (arith, lookup-remove_key k k r.sections),
      ground (arith, lookup-remove_key k k r.sections, lookup-AllMade k r.made r.sections a e),
    )
