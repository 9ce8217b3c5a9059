-- ===== src/Sync/Push/Rounds.antt =====
-- A round of file_sync_service.c's loop in the states of a file's SEND, as steps of the machine.
use micro_adb.Common.{
  take-take-drop, drop-drop, ℕ, suc, ◌+◌, ◌-◌, ◌≤◌, ◌≡◌, ◌⊎◌, sym, ap, ◌∙◌, List, ◌∷◌, ◌++◌, arith,
  length, length-drop, take, drop,
}
use micro_adb.Os.{Os, wrote}
use micro_adb.Sync.{Ctx, Ret, more, process_send_file_hdr, process_send_file_data}
use micro_adb.Sync.Push.{Push, header, over, left, after, content}

-- write(2) on a descriptor that takes at least one byte whenever it is given some, and appends what
-- it takes to the file.
pub record Stores {W : Type 0} (os : Os W) (fd : ℕ) (contents : W → List ℕ) : Type 0 where
  pub count : ℕ → List ℕ → W → ℕ
  pub world : ℕ → List ℕ → W → W
  pub write :
      (b : ℕ) (bs : List ℕ) (w : W)
      → os.write fd (b ∷ bs) w ≡ (wrote (suc (count b bs w)), world b bs w)
  pub takes : (b : ℕ) (bs : List ℕ) (w : W) → count b bs w ≤ length bs
  pub appends :
      (b : ℕ) (bs : List ℕ) (w : W)
      → contents (world b bs w) ≡ contents w ++ b ∷ take (count b bs w) bs

module _ {W : Type 0} where
  -- What is left of the packet.
  abbrev pub rest : Ctx W → List ℕ
  rest s = take s.data_length (drop s.packet_ptr s.payload)

  -- The service is where the machine is.
  pub data Rep (s : Ctx W) (p : Push) : Type 0 where
    in_header :
        (h : List ℕ)
        → p ≡ header h
        → s.state ≡ process_send_file_hdr
        → s.size ≡ length h
        → take (length h) s.buff ≡ h
        → Rep s p
    in_block : p ≡ left s.namelen → s.state ≡ process_send_file_data → s.size ≡ 0 → Rep s p

  -- A round that has read `xs` and goes on.
  pub record Moves (contents : W → List ℕ) (s : Ctx W) (p : Push) (xs : List ℕ) (r : Ret × Ctx W)
      : Type 0 where
    pub result : r.0 ≡ more
    pub rep : Rep r.1 (after p xs)
    pub file : contents r.1.world ≡ contents s.world ++ content p xs
    pub taken : rest s ≡ xs ++ rest r.1
    pub packet : r.1.payload ≡ s.payload
    pub descriptor : r.1.send_file_fd ≡ s.send_file_fd

  -- A round moves, or has met a header that ends the file.
  abbrev pub Round : (W → List ℕ) → Ctx W → Push → Ret × Ctx W → Type 0
  Round contents s p r =
      (xs : List ℕ) × (Moves contents s p xs r
        ⊎ (ys : List ℕ) × (rest s ≡ xs ++ ys) × (after p xs ≡ over))

  -- What is left of the packet, cut at what a round takes.
  pub rest-split :
      (s : Ctx W) (k : ℕ)
      → k ≤ s.data_length
      → s.packet_ptr + s.data_length ≤ length s.payload
      → rest s
        ≡ take k (drop s.packet_ptr s.payload)
          ++ take (s.data_length - k) (drop (s.packet_ptr + k) s.payload)
  rest-split s k h i =
      let xs = drop s.packet_ptr s.payload in
      let z : k + (s.data_length - k) ≡ s.data_length = omega (arith, h) in
      sym (
        ap (λ ys. take k xs ++ take (s.data_length - k) ys)
          (sym (drop-drop k s.packet_ptr s.payload))
        ∙ take-take-drop k (s.data_length - k) xs
            (omega (arith, h, i, length-drop s.packet_ptr s.payload))
        ∙ ap (λ n. take n xs) z)
