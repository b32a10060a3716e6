-- ===== src/Blockmap/Layers/Block.antt =====
-- A big-block that is well formed, and what is read back of it after a change.
use hammer_linux.Base.{ℕ, ◌<◌, ◌≡◌, ◌≢◌, refl, ap, ◌∙◌, nonzero_test, same_test, ne_test}
use hammer_linux.Base.Outcome.{done}
use hammer_linux.Disk.{layer1_offset, layer2_offset, largeblock_size}
use hammer_linux.Blockmap.Layers.{
  Layer1, Layer2, Calls, Freemap, write, plus, unavail, layer1_at, layer2_at, seal1, seal2, dive,
}

abbrev pub entry1 : Freemap → ℕ → Layer1
entry1 f zone_offset = f.layer1 (layer1_at f zone_offset)

abbrev pub entry2 : Freemap → ℕ → Layer2
entry2 f zone_offset = f.layer2 (layer2_at f zone_offset)

-- The entries of the big-block can be read, and their CRCs match; it has a zone unless it is
-- entirely free.
pub record IsBlock (calls : Calls) (f : Freemap) (zone_offset : ℕ) : Type 0 where
  pub reads1 : calls.bread (layer1_at f zone_offset) ≡ 0
  pub reads2 : calls.bread (layer2_at f zone_offset) ≡ 0
  pub mapped : (entry1 f zone_offset).phys_offset ≢ 0
  pub available : (entry1 f zone_offset).phys_offset ≢ unavail
  pub crc1 : (entry1 f zone_offset).layer1_crc ≡ (seal1 calls (entry1 f zone_offset)).layer1_crc
  pub crc2 : (entry2 f zone_offset).entry_crc ≡ (seal2 calls (entry2 f zone_offset)).entry_crc
  pub whole :
      (entry2 f zone_offset).zone ≡ 0
      → ((entry2 f zone_offset).bytes_free ≡ largeblock_size)
        × ((entry2 f zone_offset).append_off ≡ 0)
  pub used : (entry2 f zone_offset).zone ≢ 0 → (entry2 f zone_offset).bytes_free < largeblock_size

module _ (calls : Calls) where
  pub dive_done :
      (f : Freemap) (zone_offset : ℕ)
      → IsBlock calls f zone_offset
      → dive calls f zone_offset ≡ done tt
  unfolding dive
  dive_done f zone_offset ok =
      rw
        (
          ok.reads1,
          nonzero_test (entry1 f zone_offset).phys_offset ok.mapped,
          ne_test (entry1 f zone_offset).phys_offset unavail ok.available,
          ok.crc1,
          same_test (seal1 calls (entry1 f zone_offset)).layer1_crc,
          ok.reads2,
          ok.crc2,
          same_test (seal2 calls (entry2 f zone_offset)).entry_crc,
        )
        refl

pub entry1_same :
    (f : Freemap) (a b : ℕ) → layer1_offset a ≡ layer1_offset b → entry1 f a ≡ entry1 f b
unfolding layer1_at
entry1_same f a b e = ap (λ x. f.layer1 (plus f.phys_offset x)) e

-- The entries are found where they were as long as those of layer 1 keep their `phys_offset`.
pub layer1_at_same :
    (f g : Freemap) (zone_offset : ℕ)
    → g.phys_offset ≡ f.phys_offset
    → layer1_at g zone_offset ≡ layer1_at f zone_offset
unfolding layer1_at
layer1_at_same f g zone_offset e = ap (λ p. plus p (layer1_offset zone_offset)) e

pub layer2_at_same :
    (f g : Freemap) (zone_offset : ℕ)
    → g.phys_offset ≡ f.phys_offset
    → (g.layer1 (layer1_at f zone_offset)).phys_offset ≡ (entry1 f zone_offset).phys_offset
    → layer2_at g zone_offset ≡ layer2_at f zone_offset
unfolding layer2_at
layer2_at_same f g zone_offset e h =
    rw (layer1_at_same f g zone_offset e) (ap (λ p. plus p (layer2_offset zone_offset)) h)

pub read_back {ℓ} : {A : Type ℓ} (f : ℕ → A) (at : ℕ) (v : A) → write f at v at ≡ v
read_back f at v = rw (same_test at) refl

-- Entries written in place of those of the big-block.
pub record Has (f : Freemap) (zone_offset : ℕ) (g : Freemap) (l1 : Layer1) (l2 : Layer2)
    : Type 0 where
  pub phys : g.phys_offset ≡ f.phys_offset
  pub first : g.layer1 (layer1_at f zone_offset) ≡ l1
  pub second : g.layer2 (layer2_at f zone_offset) ≡ l2
  pub same : l1.phys_offset ≡ (entry1 f zone_offset).phys_offset

module _ (f g : Freemap) (zone_offset : ℕ) (l1 : Layer1) (l2 : Layer2)
    (has : Has f zone_offset g l1 l2) where
  pub Has-at1 : layer1_at g zone_offset ≡ layer1_at f zone_offset
  Has-at1 = layer1_at_same f g zone_offset has.phys

  pub Has-at2 : layer2_at g zone_offset ≡ layer2_at f zone_offset
  Has-at2 = layer2_at_same f g zone_offset has.phys (ap (λ l. l.phys_offset) has.first ∙ has.same)

  pub Has-entry1 : entry1 g zone_offset ≡ l1
  Has-entry1 = ap g.layer1 Has-at1 ∙ has.first

  pub Has-entry2 : entry2 g zone_offset ≡ l2
  Has-entry2 = ap g.layer2 Has-at2 ∙ has.second

  pub Has-IsBlock :
      (calls : Calls)
      → IsBlock calls f zone_offset
      → l1.layer1_crc ≡ (seal1 calls l1).layer1_crc
      → l2.entry_crc ≡ (seal2 calls l2).entry_crc
      → (l2.zone ≡ 0 → (l2.bytes_free ≡ largeblock_size) × (l2.append_off ≡ 0))
      → (l2.zone ≢ 0 → l2.bytes_free < largeblock_size)
      → IsBlock calls g zone_offset
  Has-IsBlock calls ok c1 c2 whole used = record {
    reads1 = rw Has-at1 ok.reads1;
    reads2 = rw Has-at2 ok.reads2;
    mapped = rw Has-entry1 (rw has.same ok.mapped);
    available = rw Has-entry1 (rw has.same ok.available);
    crc1 = rw Has-entry1 c1;
    crc2 = rw Has-entry2 c2;
    whole = rw Has-entry2 whole;
    used = rw Has-entry2 used;
  }
