-- ===== src/Server/Poll.antt =====
-- src/linear_fcgi_server.cc: the loop of Server::onPoll, which joins what `read` gives until there
-- is nothing left or the threshold is reached. The libuv thread may add to the queue between two
-- rounds: `between` holds what it does before each round.
use linear_fcgi.Common.{ℕ, zero, suc, Bool, not, List, [], ◌∷◌, ◌++◌}
use linear_fcgi.Common.{Option, none, some, if◌then◌else◌, ltb, length}
use linear_fcgi.Client.State.{Client, Effect}
use linear_fcgi.Client.Calls.{LoopEvent, apply_all, read, ReadReply, gone, nothing, chunk}

abbrev pub data_threshold : ℕ
data_threshold = 16384

pub data PollEnd : Type 0 where
  poll_gone : PollEnd
  no_memory : PollEnd
  poll_data : List ℕ → PollEnd

pub record Polled : Type 0 where
  pub client : Client
  pub effects : List Effect
  pub end : PollEnd

abbrev pub head : List (List LoopEvent) → List LoopEvent
head [] = []
head (e ∷ es) = e

abbrev pub tail : List (List LoopEvent) → List (List LoopEvent)
tail [] = []
tail (e ∷ es) = es

pub data Round : Type 0 where
  finished : PollEnd → Round
  onward : List ℕ → Round

-- What one round makes of a reply of `read`; `joined` is `data`.
unfoldable pub round : (ℕ → Bool) → (joined : List ℕ) → ReadReply → Round
round malloc joined gone = finished poll_gone
round malloc joined nothing = finished (poll_data joined)
round malloc joined (chunk buf) =
    let joined' = joined ++ buf in
    if not (ltb 0 (length buf))
    then finished (poll_data joined)
    else if not (malloc (length joined'))
    then finished no_memory
    else if ltb (length joined') data_threshold
    then onward joined'
    else finished (poll_data joined')

-- The rounds; `none` means that the fuel ran out.
unfoldable pub poll_loop :
    (fuel : ℕ)
    → (malloc : ℕ → Bool) → (now : ℕ) → List (List LoopEvent)
    → (joined : List ℕ) → Client
    → List Effect
    → Option Polled
poll_loop zero malloc now between joined c effects = none
poll_loop (suc fuel) malloc now between joined c effects =
    let (c1, more) = apply_all (head between) c in
    let (c2, reply) = read now c1 in
    elim (round malloc joined reply) [
      | finished end ↦ some (record { client = c2; effects = effects ++ more; end = end })
      | onward joined' ↦ poll_loop fuel malloc now (tail between) joined' c2 (effects ++ more)
    ]

-- Every round but the last adds a byte, so this many are enough.
unfoldable pub poll : (ℕ → Bool) → ℕ → List (List LoopEvent) → Client → Option Polled
unfolding poll_loop
poll malloc now between c = poll_loop (suc data_threshold) malloc now between [] c []
