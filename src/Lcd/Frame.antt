-- ===== src/Lcd/Frame.antt =====
-- The framebuffer is memory: no access to its window is out of bounds, and a read gives back what
-- was written last.
use pksx.Base.{ℕ, ◌+◌, ◌*◌, ◌<◌, ◌≡◌, refl, arith, ◌==◌, if◌then◌else◌, ok, update}
use pksx.Base.Bits.Laws.{bit_and_mask}
use pksx.Access.{word}
use pksx.Lcd.{Lcd, store, load, rotated}

-- A store of a word to one of the 32 words of the screen returns, a load of that word gives it
-- back, every other word of the screen reads as before, and the rotation is unchanged.
pub load-store_frame :
    (l : Lcd) (offset other val : ℕ)
    → offset < 32
    → other < 32
    → (l' : Lcd) × (store word (0x100 + offset * 4) val l ≡ ok l')
      × (load word (0x100 + other * 4) l'
          ≡ (if offset == other then ok val else load word (0x100 + other * 4) l))
      × (rotated l' ≡ rotated l)
unfolding store load rotated
load-store_frame l offset other val h k = (
  record l { fb = update l.fb offset val },
  ground (arith, bit_and_mask 7 (0x100 + offset * 4)),
  ground (arith, bit_and_mask 7 (0x100 + other * 4)),
  refl,
)
