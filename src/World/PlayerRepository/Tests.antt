-- ===== src/World/PlayerRepository/Tests.antt =====
-- A player put into the empty repository.
use server.Base.{◌≡◌, ◌⊎◌, Option, some, none, arith}
use server.Container.LruCache.Abstract.{entries, find}
use server.World.PlayerRepository.{
  Player, repository, insert, remove_player, remove_player-insert, repository-IsCache,
}

abbrev player : Player
player = record { character_id = 7; account_id = 1; combat = 0 }

remove_player-insert_example :
    let (out, c') = remove_player 7 (insert (some player) repository) in
    ((find 7 (entries repository.lru_key_values) ≡ none) × (out ≡ some player))
    ⊎ ((q : Option Player) × (find 7 (entries repository.lru_key_values) ≡ some q) × (out ≡ q))
unfolding repository
remove_player-insert_example =
    remove_player-insert player repository repository-IsCache (omega arith)
