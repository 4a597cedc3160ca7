-- ===== src/World/SectionRepository.antt =====
-- The sections by their maps: Source/Server/Section/SectionRepository.cpp. A section is a handle, and
-- `count` what its `GetCount` returns at the time. What is posted to sections and sessions is a list, in the
-- order of the posts; the id of a map is a parameter.
pub mod Splits
mod Tests
use server.Base.{
  ℕ, ◌+◌, Bool, true, false, List, [], ◌∷◌, ◌++◌, Option, some, none, leb, if◌then◌else◌, ◌==◌,
  lookup, assign, remove_key,
}

pub data Post : Type 0 where
  on_created : ℕ → Post
  on_tick : ℕ → Post
  -- The session's OnSectionEntered, which then posts EnterSession to the section.
  on_section_entered : ℕ → ℕ → Post
  leave_session : ℕ → ℕ → Post
  on_section_left : ℕ → ℕ → Post
  on_destroyed : ℕ → Post

-- `made` is how many sections were made: the next one's handle.
pub record SectionRepository : Type 0 where
  pub sections : List (ℕ × ℕ)
  pub count : ℕ → ℕ
  pub made : ℕ
  pub posts : List Post

-- `GetSection`, `AddSection` and `RemoveSection`
pub get_section : ℕ → SectionRepository → Option ℕ
unfolding lookup
get_section id r = lookup id r.sections

add_section : ℕ → ℕ → SectionRepository → SectionRepository
unfolding assign
add_section id h r = record r { sections = assign id h r.sections }

remove_section : ℕ → SectionRepository → SectionRepository
unfolding remove_key
remove_section id r = record r { sections = remove_key id r.sections }

pub post : List Post → SectionRepository → SectionRepository
post ps r = record r { posts = r.posts ++ ps }

-- `OnTick` of the repository: of every section.
pub ticks : List (ℕ × ℕ) → List Post
ticks [] = []
ticks (e ∷ es) = on_tick e.1 ∷ ticks es

unfoldable tick_sections : SectionRepository → SectionRepository
unfolding ticks post
tick_sections r = post (ticks r.sections) r

module _ (persistent : ℕ → ℕ) where
  -- `EnterSection`, with the section that its future has.
  pub enter_section : ℕ → ℕ → SectionRepository → ℕ × SectionRepository
  unfolding get_section add_section post
  enter_section map_uid session r =
      let id = persistent map_uid in
      elim (get_section id r) [
        | some h ↦ (h, post (on_section_entered session h ∷ []) r)
        | none ↦ (
          r.made,
          post (on_created r.made ∷ on_section_entered session r.made ∷ [])
              (add_section id r.made (record r { made = r.made + 1 })),
        )
      ]

  -- `LeaveSection`
  pub leave_section : ℕ → ℕ → SectionRepository → SectionRepository
  unfolding get_section remove_section post
  leave_section map_uid session r =
      let id = persistent map_uid in
      elim (get_section id r) [
        | none ↦ r
        | some h ↦
            let r' = post (leave_session h session ∷ on_section_left session h ∷ []) r in
            if leb (r.count h) 1 then post (on_destroyed h ∷ []) (remove_section id r') else r'
      ]

-- `FindSection`
pub find_section : ℕ → SectionRepository → Option ℕ
unfolding get_section
find_section id r = get_section id r
