-- ===== src/Naming/Listing/Sent.antt =====
-- What the client gets as a listing (Naming_server.c, JustLS and Lsfunctionality).
use mathlib.Core.List.{append-nil, append_assoc}
use network_file_system_in_c.Base.{
  All, List, Str, [], ap, arith, drop, length, map, refl, subst, suc, sym, take, take-append-drop,
  true, zero, ℕ, ◌*◌, ◌++◌, ◌-◌, ◌∙◌, ◌∷◌, ◌≡◌, ◌≤◌,
}
use network_file_system_in_c.Naming.Listing.{
  iterations, packets, send_listing, send_packets, unlines,
}
use network_file_system_in_c.Naming.State.{Command, Message, Network, Server, done, packet}
use network_file_system_in_c.Naming.State.Steps.{
  IsClient, send_client_lem, step, then_on, with_sent,
}
use network_file_system_in_c.Tries.Listing.{print_tries_file}
use network_file_system_in_c.Tries.Node.{Tries}

abbrev pub concat : List Str → Str
concat [] = []
concat (p ∷ ps) = p ++ concat ps

pub length-drop : (n : ℕ) (xs : Str) → length (drop n xs) ≡ length xs - n
length-drop zero xs = omega arith
length-drop (suc n) [] = omega arith
length-drop (suc n) (x ∷ xs) = omega (arith, length-drop n xs)

pub length-take-le : (n : ℕ) (xs : Str) → length (take n xs) ≤ n
length-take-le zero xs = omega arith
length-take-le (suc n) [] = omega arith
length-take-le (suc n) (x ∷ xs) = omega (arith, length-take-le n xs)

pub packets-concat :
    (k : ℕ) (bytes : Str) → length bytes ≤ k * 512 → concat (packets k bytes) ≡ bytes
unfolding packets
packets-concat zero [] h = refl
packets-concat zero (c ∷ cs) h = absurd (omega arith)
packets-concat (suc k) bytes h =
    ap (λ rest. take 512 bytes ++ rest)
      (packets-concat k (drop 512 bytes) (omega (arith, length-drop 512 bytes)))
    ∙ take-append-drop 512 bytes

pub packets-All : (k : ℕ) (bytes : Str) → All (λ p. length p ≤ 512) (packets k bytes)
unfolding packets
packets-All zero bytes = tt
packets-All (suc k) bytes = (length-take-le 512 bytes, packets-All k (drop 512 bytes))

pub length-packets : (k : ℕ) (bytes : Str) → length (packets k bytes) ≡ k
unfolding packets
length-packets zero bytes = refl
length-packets (suc k) bytes = omega (arith, length-packets k (drop 512 bytes))

abbrev pub packet_of : ℕ → ℕ → Str → Message
packet_of port total p = packet port (length p) total p

pub send_packets_lem :
    (net : Network) (port total : ℕ) (ps : List Str) (s : Server)
    → IsClient port
    → (s' : Server) × (send_packets net port total ps s ≡ done tt s')
      × (s'.sent ≡ s.sent ++ map (packet_of port total) ps)
      × (s'.thp ≡ s.thp)
unfolding send_packets
send_packets_lem net port total [] s client = (s, refl, sym (append-nil s.sent), refl)
send_packets_lem net port total (p ∷ ps) s client =
    let (s', run, sent, same) =
      send_packets_lem net port total ps (with_sent (packet_of port total p) s) client in
    (
      s',
      step _ (send_client_lem net port _ s client) run,
      sent ∙ append_assoc s.sent (packet_of port total p ∷ []) (map (packet_of port total) ps),
      same,
    )

-- A listing below `t` reaches the client whole: if the file opens, the handler sends packets and no
-- other message, and goes on; no packet is longer than 512 bytes, each carries its own size and the
-- number of packets there are, and their bytes one after the other are the lines of the listing.
pub send_listing_lem :
    (net : Network) (c : Command) (file val : Str) (t : Tries) (s : Server)
    → IsClient c.port
    → net.opens file ≡ true
    → (ps : List Str) × (s' : Server) × (send_listing net c file t val s ≡ done tt s')
      × (s'.sent ≡ s.sent ++ map (packet_of c.port (length ps)) ps)
      × All (λ p. length p ≤ 512) ps
      × (concat ps ≡ unlines (print_tries_file t val []))
unfolding send_listing
send_listing_lem net c file val t s client opens =
    let bytes = unlines (print_tries_file t val []) in
    let n = iterations bytes in
    let (s', run, sent, _) = send_packets_lem net c.port n (packets n bytes) s client in
    (
      packets n bytes,
      s',
      then_on _ _ opens run,
      subst (λ k. s'.sent ≡ s.sent ++ map (packet_of c.port k) (packets n bytes))
          (sym (length-packets n bytes)) sent,
      packets-All n bytes,
      packets-concat n bytes (omega arith),
    )
