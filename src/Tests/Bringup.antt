-- ===== src/Tests/Bringup.antt =====
-- ahci_init of drivers/ahci/ahci.c on a controller that is ready at once.
use ester.Prelude.{
  ℕ, zero, suc, ◌+◌, ◌*◌, ◌/◌, ◌%◌, ◌^◌, ◌<◌, ◌≡◌, refl, false, some, Cells, arith, ◌==◌,
  if◌then◌else◌, update,
}
use ester.Kernel.Paging.{is_absent, pmap}
use ester.Kernel.Paging.Walk.{pmap-present}
use ester.Drivers.Ahci.{Machine, port_cmd, hba_ghc, hba_ports, has_bit}
use ester.Drivers.Ahci.Init.Polls.{reads}
use ester.Drivers.Ahci.Init.Engine.{IsHost, IsEngine, Resets}

abbrev abar : ℕ
abar = 0xFEBF1000

-- Registers and memory. A reset is done at once; FR reads as set while FRE is, and CR while ST is.
pub record Board : Type 0 where
  pub registers : Cells
  pub bytes : Cells

module _ (base : ℕ) where
  abbrev pub shown : ℕ → ℕ → ℕ
  shown reg x =
      if reg == base + hba_ghc
      then x / 2 * 2
      else if reg == base + hba_ports + port_cmd
      then x % 2 ^ 14 + 2 ^ 14 * (x / 2 ^ 4 % 2) + 2 ^ 15 * (x % 2)
      else x

  abbrev pub board : Machine Board
  board = record {
    get = λ reg m. (shown reg (m.registers reg), m);
    put = λ reg x m. record m { registers = update m.registers reg x };
    memory = λ m. m.bytes;
    set_memory = λ c m. record m { bytes = c };
  }

  pub board-IsHost : IsHost board (base + hba_ports)
  board-IsHost = record {
    memory_get = λ reg m. refl;
    memory_put = λ reg x m. refl;
    memory_set = λ c m. refl;
    list_put = λ x m. ground arith;
    list_other = λ reg x m lo hi. ground arith;
    list_get = λ reg m. refl;
    list_set = λ c m. refl;
  }

  update_same : (c : Cells) (at x : ℕ) → update c at x at ≡ x
  update_same c at x = ground arith

  update_other : (c : Cells) (at k x : ℕ) → at < k → update c at x k ≡ c k
  update_other c at k x h = ground arith

  reads-same : (reg n : ℕ) (m : Board) → reads board reg n m ≡ m
  reads-same reg zero m = refl
  reads-same reg (suc n) m = reads-same reg n m

  shown_start : (x : ℕ) → has_bit (shown (base + hba_ports + port_cmd) x) 0 ≡ has_bit x 0
  shown_start x = ground arith

  shown_receive : (x : ℕ) → has_bit (shown (base + hba_ports + port_cmd) x) 4 ≡ has_bit x 4
  shown_receive x = ground arith

  -- FR and CR follow FRE and ST.
  shown_ends :
      (x : ℕ)
      → has_bit (shown (base + hba_ports + port_cmd) x) 0 ≡ false
      → has_bit (shown (base + hba_ports + port_cmd) x) 4 ≡ false
      → (has_bit (shown (base + hba_ports + port_cmd) x) 14 ≡ false)
        × (has_bit (shown (base + hba_ports + port_cmd) x) 15 ≡ false)
  shown_ends x h k = (ground arith, ground arith)

  pub board-Resets : Resets board (base + hba_ghc) 0
  board-Resets x m h n le =
      rw (reads-same (base + hba_ghc) n (board.put (base + hba_ghc) x m)) (ground arith)

  pub board-IsEngine : IsEngine board (base + hba_ports) 0
  board-IsEngine = record {
    start_put = λ x m. rw (update_same m.registers (base + hba_ports + port_cmd) x) (shown_start x);
    receive_put =
        λ x m. rw (update_same m.registers (base + hba_ports + port_cmd) x) (shown_receive x);
    stopped_get = λ reg m h. h;
    stopped_put = λ reg x m lo hi h.
        rw (update_other m.registers reg (base + hba_ports + port_cmd) x (omega arith)) h;
    stopped_set = λ c m h. h;
    receive_ends = λ m h n le.
        rw (reads-same (base + hba_ports + port_cmd) n m)
          (shown_ends (m.registers (base + hba_ports + port_cmd)) h.0 h.1).0;
    list_ends = λ m h n le.
        rw (reads-same (base + hba_ports + port_cmd) n m)
          (shown_ends (m.registers (base + hba_ports + port_cmd)) h.0 h.1).1;
  }

-- Every table is at 4096.
abbrev pub tables : Cells
tables a = 4099

-- Every register has the bits of a running engine: FRE and ST.
abbrev pub running_board : Board
running_board = record { registers = λ a. 17; bytes = λ a. 0 }

running : (board abar).get (abar + hba_ports + port_cmd) running_board ≡ (0xC011, running_board)
running = refl

pub all_present : (a : ℕ) → is_absent tables a ≡ false
unfolding is_absent
all_present a = refl

abbrev mapped : (m : Cells) × (pmap 4096 abar abar 0 tables ≡ some m)
mapped =
    let (m, e, _, _) =
      pmap-present 4096 abar abar 0 tables (all_present _) (all_present _) (all_present _) in
    (m, e)
