-- ===== src/Transaction/Total.antt =====
-- Panics of what a worker asks of its transaction.
use dalgo2http.Context.{Context}
use dalgo2http.Errors.{Returns}
use dalgo2http.Reads.Total.{IsShownQuery}
use dalgo2http.Transaction.{Transaction, Call, query_, Reply, done, found, records}

-- the reply is a value or an error
abbrev pub IsReturned : Reply → Type 0
IsReturned (done r recs) = Returns r
IsReturned (found r) = Returns r
IsReturned (records r) = Returns r

-- the call brings no value that panics on its method String
abbrev pub IsShownCall : Call → Type 0
IsShownCall (query_ q) = IsShownQuery q
IsShownCall _ = Unit
