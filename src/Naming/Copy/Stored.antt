-- ===== src/Naming/Copy/Stored.antt =====
-- What the second storage server of a copy gets (Naming_server.c, copyfunctionality).
use mathlib.Core.List.{append-nil, append_assoc}
use network_file_system_in_c.Base.{
  Bool-cases, List, Str, [], ap, arith, drop, inl, inr, leb, length, map, refl, suc, sym, take,
  take-append-drop, zero, ℕ, ◌*◌, ◌++◌, ◌-◌, ◌∙◌, ◌∷◌, ◌≡◌, ◌≤◌,
}
use network_file_system_in_c.Naming.Copy.{pieces, send_chunks, zeros}
use network_file_system_in_c.Naming.Listing.Sent.{concat, length-drop}
use network_file_system_in_c.Naming.State.{Network, Server, chunk, done, send}
use network_file_system_in_c.Naming.State.Steps.{with_sent}

pub take_all : (n : ℕ) (xs : Str) → length xs ≤ n → take n xs ≡ xs
take_all zero [] h = refl
take_all zero (x ∷ xs) h = absurd (omega arith)
take_all (suc n) [] h = refl
take_all (suc n) (x ∷ xs) h = ap (λ ys. x ∷ ys) (take_all n xs (omega arith))

pub length-take_full : (n : ℕ) (xs : Str) → n ≤ length xs → length (take n xs) ≡ n
length-take_full zero xs h = refl
length-take_full (suc n) [] h = absurd (omega arith)
length-take_full (suc n) (x ∷ xs) h = omega (arith, length-take_full n xs)

-- The pieces hold the bytes, and something behind them.
pub pieces-concat :
    (k : ℕ) (bytes : Str)
    → length bytes ≤ k * 8192
    → (padding : Str) × (concat (pieces k bytes) ≡ bytes ++ padding)
unfolding pieces
pieces-concat zero [] h = ([], refl)
pieces-concat zero (c ∷ cs) h = absurd (omega arith)
pieces-concat (suc k) bytes h = elim (Bool-cases (leb (length bytes) 8192)) [
  | inl last ↦ (
    zeros (8192 - length (take 8192 bytes)) ++ concat (pieces k (drop 8192 bytes)),
    append_assoc (take 8192 bytes) (zeros (8192 - length (take 8192 bytes)))
          (concat (pieces k (drop 8192 bytes)))
        ∙ ap
            (λ p.
              p ++ (zeros (8192 - length (take 8192 bytes)) ++ concat (pieces k (drop 8192 bytes))))
            (take_all 8192 bytes (ground arith)),
  )
  | inr more ↦
      let (padding, rest) =
        pieces-concat k (drop 8192 bytes) (omega (arith, length-drop 8192 bytes)) in
      let full : 8192 - length (take 8192 bytes) ≡ 0 =
        omega (arith, length-take_full 8192 bytes (ground arith)) in
      (
        padding,
        ap (λ m. (take 8192 bytes ++ zeros m) ++ concat (pieces k (drop 8192 bytes))) full
            ∙ ap (λ p. p ++ concat (pieces k (drop 8192 bytes))) (append-nil (take 8192 bytes))
            ∙ ap (λ r. take 8192 bytes ++ r) rest
            ∙ sym (append_assoc (take 8192 bytes) (drop 8192 bytes) padding)
            ∙ ap (λ b. b ++ padding) (take-append-drop 8192 bytes),
      )
]

pub send_chunks_lem :
    (net : Network) (i : ℕ) (ps : List Str) (s : Server)
    → (s' : Server) × (send_chunks net i ps s ≡ done tt s')
      × (s'.sent ≡ s.sent ++ map (chunk i) ps)
      × (s'.block_server ≡ s.block_server)
      × (s'.recvs ≡ s.recvs)
unfolding send_chunks send
send_chunks_lem net i [] s = (s, refl, sym (append-nil s.sent), refl, refl)
send_chunks_lem net i (p ∷ ps) s =
    let (s', run, sent, same, counted) = send_chunks_lem net i ps (with_sent (chunk i p) s) in
    (s', run, sent ∙ append_assoc s.sent (chunk i p ∷ []) (map (chunk i) ps), same, counted)
