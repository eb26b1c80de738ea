-- ===== src/RamClient/Sends.antt =====
-- What `send_thread` of sb_sim/tlmem/client.cc sends, beside `put` of sb_sim/include/tilelinklib.hpp.
use native.Mathlib.Numerals.{add-one}
use switchboard_adapter.Base.{
  ℕ, zero, suc, ◌*◌, ◌≡◌, refl, ap, ◌∙◌, List, [], ◌∷◌, length, length-drop, drop, All, All-append,
  All-drop, arith,
}
use switchboard_adapter.Base.Bits.{ones}
use switchboard_adapter.Base.Result.{ok}
use switchboard_adapter.Base.Memcpy.{splice}
use switchboard_adapter.Wire.{TlMessageA, IsByte}
use switchboard_adapter.Agent.{TlAgent, put}
use switchboard_adapter.Agent.Config.{IsConfigured, Accepts}
use switchboard_adapter.Agent.Put.{put_lem}
use switchboard_adapter.Client.{Link, send_a}
use switchboard_adapter.Client.Order.{send_each}
use switchboard_adapter.MemIfc.Ready.{IsStack}
use switchboard_adapter.Print.{print_a}
use switchboard_adapter.Print.Messages.{print_a-ok}
use switchboard_adapter.RamClient.{word, word_request, send_round, send_words, send_thread}

-- Each message is what `put` fills for a word of four bytes at the word's own address, from round `j` on.
abbrev pub ArePuts : TlAgent → (ℕ → TlMessageA) → ℕ → List TlMessageA → Type 0
ArePuts agent fresh j [] = Unit
ArePuts agent fresh j (m ∷ ms) =
    (put agent (fresh j) j (j * 4) 2 (word j) ≡ ok m) × ArePuts agent fresh (suc j) ms

module _ (agent : TlAgent) (c : IsConfigured 2 agent) (acc : Accepts agent 2)
    (fresh : ℕ → TlMessageA) (st : (j : ℕ) → IsStack (fresh j)) where
  word-All : (j : ℕ) → All IsByte (word j)
  word-All j = ground arith

  pub word_line : (j : ℕ) → (line : List ℕ) × (print_a agent (word_request (fresh j) j) ≡ ok line)
  word_line j =
      print_a-ok 2 agent (word_request (fresh j) j) c.beat
        (omega (arith, length-drop 4 (fresh j).payload, (st j).payload_length))
        (All-append IsByte (word j) (drop 4 (fresh j).payload) (word-All j)
          (All-drop IsByte 4 (fresh j).payload (st j).payload_bytes))

  put-word_request :
      (j : ℕ) → put agent (fresh j) j (j * 4) 2 (word j) ≡ ok (word_request (fresh j) j)
  unfolding ones splice
  put-word_request j =
      put_lem 2 agent c (fresh j) j (j * 4) 2 (word j) acc (λ h. absurd (omega arith))
        (st j).payload_length (omega arith)

  word_step :
      {W : Type 0} (link : Link W) (left j : ℕ) (w : W)
      → send_words link agent fresh (suc left) j w
        ≡ send_words link agent fresh left (suc j) (send_a link (word_request (fresh j) j) w)
  unfolding send_words send_round
  word_step link left j w = rw ((word_line j).1, add-one)

  words_send :
      (left j : ℕ)
      → (ms : List TlMessageA) × (length ms ≡ left)
        × ArePuts agent fresh j ms
        × ((W : Type 0) (link : Link W) (w : W)
            → send_words link agent fresh left j w ≡ ok (send_each (send_a link) ms w))
  unfolding send_each
  words_send zero j = ([], refl, tt, λ W link w. unfold send_words in refl)
  words_send (suc left) j =
      let (ms, len, are, runs) = words_send left (suc j) in
      (
        word_request (fresh j) j ∷ ms,
        ap suc len,
        (put-word_request j, are),
        λ W link w.
            word_step link left j w ∙ runs W link (send_a link (word_request (fresh j) j) w),
      )

  -- On an agent for beats of four bytes that accepts transfers of a beat, and whatever the stack holds in each round:
  -- over any link, `send_thread` sends 32 messages, and message `j` is the one that `put` would fill for
  -- source `j`, address `4 * j` and the bytes of word `j`.
  pub send_thread_sends :
      (ms : List TlMessageA) × (length ms ≡ 32)
      × ArePuts agent fresh 0 ms
      × ((W : Type 0) (link : Link W) (w : W)
          → send_thread link agent fresh w ≡ ok (send_each (send_a link) ms w))
  send_thread_sends = words_send 32 0
