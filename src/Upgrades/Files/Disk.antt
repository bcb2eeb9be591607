-- ===== src/Upgrades/Files/Disk.antt =====
-- What holds after a write, whether the disk takes it or refuses it.
use arb_bridge_peripherals.Base.{Bool, true, false, List, [], ◌∷◌, Triple, Post, Moves}
use arb_bridge_peripherals.Upgrades.Node.{Hre, World}
use arb_bridge_peripherals.Upgrades.Files.{on_disk, disk_answers}

module _ (H : Hre) where
  pub Post-on_disk :
      {Q : Unit {0} → World H → Type 0} {E : World H → Type 0} (f : World H → World H) (w : World H)
      → ((disk : List Bool) → Q tt (f (record w { disk = disk })))
      → ((disk : List Bool) → E (record w { disk = disk }))
      → Triple Q E (on_disk H f) w
  unfolding on_disk disk_answers
  Post-on_disk {Q} {E} f w h k = record { holds = at w.disk (h w.disk) }
    where
      at : (bs : List Bool) → Q tt (f w) → Post Q E (disk_answers H bs f w)
      at [] now = now
      at (true ∷ rest) now = h rest
      at (false ∷ rest) now = k rest

  pub Moves-on_disk :
      {R : World H → World H → Type 0} (f : World H → World H)
      → ((w : World H) (disk : List Bool) → R w (f (record w { disk = disk })))
      → ((w : World H) (disk : List Bool) → R w (record w { disk = disk }))
      → Moves R (on_disk H f)
  unfolding on_disk disk_answers
  Moves-on_disk {R} f h k = record { moves = λ w. at w w.disk (h w w.disk) }
    where
      at : (w : World H) (bs : List Bool) → R w (f w) → R w (disk_answers H bs f w).1
      at w [] now = now
      at w (true ∷ rest) now = h w rest
      at w (false ∷ rest) now = k w rest
