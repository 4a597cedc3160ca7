-- ===== src/World/SectionRepository/Tests.antt =====
-- Map 4 has section 0, with one session counted.
use server.Base.{◌≡◌, ◌≢◌, refl, [], ◌∷◌, none, arith}
use server.World.SectionRepository.{SectionRepository, enter_section, leave_section, find_section}
use server.World.SectionRepository.Splits.{enter-leave-enter}
use server.World.Ids.{persistent}

abbrev one_section : SectionRepository
one_section = record { sections = (4, 0) ∷ []; count = λ h. 1; made = 1; posts = [] }

enter-leave-enter_example :
    let (h', r') = enter_section persistent 4 2 one_section in
    let r'' = leave_section persistent 4 1 r' in
    (h' ≡ 0) × (find_section (persistent 4) r'' ≡ none) × ((enter_section persistent 4 3 r'').0 ≢ 0)
unfolding persistent find_section
enter-leave-enter_example =
    enter-leave-enter persistent 4 1 2 3 one_section 0 (omega arith) refl (omega arith)
