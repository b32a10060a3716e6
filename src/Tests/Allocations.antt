-- ===== src/Tests/Allocations.antt =====
-- Allocation and reservation in a freemap that covers one entry of layer 1.
use hammer_linux.Base.{
  inl, inr, Bool-cases, ◌==◌, if◌then◌else◌, none-some, ℕ, ◌≡◌, refl, arith, some, [],
}
use hammer_linux.Base.Outcome.{Outcome}
use hammer_linux.Disk.{zone_decode, largeblock_size}
use hammer_linux.Blockmap.Reserve.{find}
use hammer_linux.Blockmap.Layers.{Calls, Freemap, layer1_at, unavail}
use hammer_linux.Blockmap.Alloc.{Allocated, hammer_blockmap_alloc}
use hammer_linux.Blockmap.Alloc.Forward.{IsFreemap}
use hammer_linux.Blockmap.Alloc.Allocated.{Allocates, hammer_blockmap_alloc-Allocates}

-- A checksum that is always 0, and no read errors.
abbrev calls : Calls
calls = record {
  bread = λ at. 0;
  crc1 = λ blocks_free phys_offset reserved01 layer2_crc. 0;
  crc2 = λ zone unused01 unused02 append_off bytes_free. 0;
}

-- One entry of layer 1 has big-blocks, all of them free; no volume covers the others.
abbrev one_entry : Freemap
one_entry = record {
  phys_offset = 0x1000;
  layer1 = λ at.
      if at == 0x1000
      then record {
        blocks_free = 5;
        phys_offset = 0x2000;
        reserved01 = 0;
        layer2_crc = 0;
        layer1_crc = 0;
      }
      else record {
        blocks_free = 0;
        phys_offset = unavail;
        reserved01 = 0;
        layer2_crc = 0;
        layer1_crc = 0;
      };
  layer2 = λ at. record {
    zone = 0;
    unused01 = 0;
    unused02 = 0;
    append_off = 0;
    bytes_free = largeblock_size;
    entry_crc = 0;
  };
  stat_freebigblocks = 5;
  copy_stat_freebigblocks = 5;
  reservations = record {
    rb_resv_root = [];
    delay_list = [];
    rsv_fromdelay = 0;
    count_reservations = 0;
    flusher_next = 0;
    deleted = [];
  };
}

one_entry-IsFreemap : IsFreemap calls one_entry
unfolding find
one_entry-IsFreemap = record {
  blocks = λ offset. elim (Bool-cases (layer1_at one_entry offset == 0x1000)) [
    | inl e ↦ inl (record {
      block = record {
        reads1 = refl;
        reads2 = refl;
        mapped = rw e (λ k. omega arith);
        available = rw e (λ k. omega arith);
        crc1 = rw e refl;
        crc2 = refl;
        whole = λ k. (refl, refl);
        used = λ n. absurd (n refl);
      };
      inside = omega arith;
      reach = omega arith;
    })
    | inr e ↦
        inr
          (record { reads1 = refl; crc1 = rw e refl; no_layer2 = rw e refl; none_free = rw e refl })
  ];
  reserved = λ offset r e. absurd (none-some r e);
}

-- Two passes over a zone.
abbrev two_passes : ℕ
two_passes = 0x2000000000000002

hammer_blockmap_alloc-Allocates_example :
    (o : Outcome Allocated) × (hammer_blockmap_alloc calls one_entry two_passes 8 50
        0x8000000000000000
      ≡ some o)
    × Allocates calls one_entry 8 64 o
unfolding zone_decode
hammer_blockmap_alloc-Allocates_example =
    hammer_blockmap_alloc-Allocates calls one_entry two_passes 8 50 0x8000000000000000
      one_entry-IsFreemap (omega arith) (omega arith) (omega arith) (omega arith) refl (inl refl)
      (omega arith)
