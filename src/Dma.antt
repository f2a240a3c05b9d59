-- ===== src/Dma.antt =====
-- src/dmac.c, the ISA DMA controllers. An operation is the list of its port writes.
use nibras_os.Prelude.{
  ℕ, ◌+◌, ◌-◌, ◌*◌, ◌/◌, ◌%◌, ◌<◌, ◌≡◌, refl, Bool, true, false, List, [], ◌∷◌, ◌++◌, arith,
  if◌then◌else◌, ◌==◌, ltb, leb, le→ltb, bit_or,
}

-- The port of the address register of a channel; 0 for any other number.
unfoldable pub address_port : ℕ → ℕ
address_port channel =
    if channel == 0
    then 0
    else if channel == 1
    then 2
    else if channel == 2
    then 4
    else if channel == 3
    then 6
    else if channel == 4
    then 192
    else if channel == 5
    then 196
    else if channel == 6
    then 200
    else if channel == 7
    then 204
    else 0

unfoldable pub count_port : ℕ → ℕ
count_port channel =
    if channel == 0
    then 1
    else if channel == 1
    then 3
    else if channel == 2
    then 5
    else if channel == 3
    then 7
    else if channel == 4
    then 194
    else if channel == 5
    then 198
    else if channel == 6
    then 202
    else 206

-- The low byte, then the high byte.
abbrev pub two_bytes : ℕ → ℕ → List (ℕ × ℕ)
two_bytes port word = (port, word % 256) ∷ (port, word / 256 % 256) ∷ []

unfoldable pub dmac_channel_set_address : ℕ → ℕ → List (ℕ × ℕ)
unfolding address_port
dmac_channel_set_address channel base =
    if ltb 8 channel then [] else two_bytes (address_port channel) base

unfoldable pub dmac_channel_set_count : ℕ → ℕ → List (ℕ × ℕ)
unfolding count_port
dmac_channel_set_count channel count =
    if leb 8 channel then [] else two_bytes (count_port channel) count

unfoldable pub dmac_extended_page_addr_set : ℕ → ℕ → List (ℕ × ℕ)
dmac_extended_page_addr_set reg extra_page_seg =
    if reg == 1
    then (131, extra_page_seg) ∷ []
    else if reg == 2
    then (129, extra_page_seg) ∷ []
    else if reg == 3
    then (130, extra_page_seg) ∷ []
    else if reg == 5
    then (137, extra_page_seg) ∷ []
    else if reg == 6
    then (135, extra_page_seg) ∷ []
    else if reg == 7
    then (136, extra_page_seg) ∷ []
    else []

unfoldable pub dmac_mask_channel : Bool → ℕ → List (ℕ × ℕ)
dmac_mask_channel on channel =
    let local = if ltb channel 4 then channel else channel - 4 in
    let port = if ltb channel 4 then 10 else 212 in
    if leb 8 channel then [] else (port, if on then bit_or 4 local else local) ∷ []

-- The channel is reduced before the masking, which so always takes it for one of the slave.
unfoldable pub dmac_set_mode : ℕ → ℕ → List (ℕ × ℕ)
unfolding dmac_mask_channel
dmac_set_mode channel mode =
    let local = if ltb channel 4 then channel else channel - 4 in
    let port = if ltb channel 4 then 11 else 214 in
    if leb 8 channel
    then []
    else dmac_mask_channel false local ++ (port, bit_or local mode) ∷ dmac_mask_channel true local

unfoldable pub dmac_set_read_mode : ℕ → List (ℕ × ℕ)
unfolding dmac_set_mode
dmac_set_read_mode channel = dmac_set_mode channel 84

unfoldable pub dmac_set_write_mode : ℕ → List (ℕ × ℕ)
unfolding dmac_set_mode
dmac_set_write_mode channel = dmac_set_mode channel 88

-- `dmac` is a `char`; the numbers from 2 on stand for those that are refused.
unfoldable pub dmac_reset : ℕ → List (ℕ × ℕ)
dmac_reset dmac = if ltb 1 dmac then [] else if dmac == 0 then (13, 0) ∷ [] else (216, 0) ∷ []

unfoldable pub dmac_reset_flipflop : ℕ → List (ℕ × ℕ)
dmac_reset_flipflop dmac =
    if ltb 1 dmac then [] else if dmac == 0 then (12, 0) ∷ [] else (216, 0) ∷ []

unfoldable pub dmac_clear_mask_register : ℕ → List (ℕ × ℕ)
dmac_clear_mask_register dmac =
    if ltb 1 dmac then [] else if dmac == 0 then (14, 0) ∷ [] else (220, 0) ∷ []

-- The register that two bytes, low and high, written to one port make.
abbrev pub received : List (ℕ × ℕ) → ℕ
received ((p, low) ∷ (q, high) ∷ ws) = low + 256 * high
received ws = 0

-- The two writes of an address or a count make the 16-bit register, for each of the 8 channels.
pub dmac_channel-received :
    (channel word : ℕ)
    → channel < 8
    → word < 65536
    → (received (dmac_channel_set_address channel word) ≡ word)
      × (received (dmac_channel_set_count channel word) ≡ word)
unfolding dmac_channel_set_address dmac_channel_set_count
dmac_channel-received channel word l w =
    rw (le→ltb 8 channel (omega arith), leb_false channel l) (omega arith, omega arith)
  where
    leb_false : (channel : ℕ) → channel < 8 → leb 8 channel ≡ false
    leb_false channel l = ground arith

-- A channel 8 does not exist, and its address goes to the register of channel 0.
pub dmac_channel_set_address-eight :
    (base : ℕ) → dmac_channel_set_address 8 base ≡ dmac_channel_set_address 0 base
unfolding dmac_channel_set_address address_port
dmac_channel_set_address-eight base = refl

-- Setting the mode of a channel of the master masks and unmasks the channel of the slave with the same
-- number within its controller: the writes are those for that channel, but for the port of the mode.
pub dmac_set_mode-master :
    (channel mode : ℕ)
    → channel < 4
    → dmac_set_mode (channel + 4) mode
      ≡ dmac_mask_channel false channel
        ++ (214, bit_or channel mode) ∷ dmac_mask_channel true channel
unfolding dmac_set_mode
dmac_set_mode-master channel mode l =
    let back : channel + 4 - 4 ≡ channel = omega arith in
    rw (dmac_set_mode, le→ltb (channel + 4) 4 (omega arith), leb_false channel l, back) refl
  where
    leb_false : (channel : ℕ) → channel < 4 → leb 8 (channel + 4) ≡ false
    leb_false channel l = ground arith
