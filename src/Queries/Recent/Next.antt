-- ===== src/Queries/Recent/Next.antt =====
-- What a client gets that asks push_getTransactions to go on from the last time that it was given.
use push_anode.Prelude.{
  ℕ, ◌^◌, ◌<◌, ◌≡◌, refl, ◌||◌, true, List, [], ◌∷◌, map, Option, some, Text, text_eq, lit, ◌==◌,
  err, All,
}
use push_anode.Util.Caip.{is_full_caip_address}
use push_anode.Util.Str.{get_or_default}
use push_anode.Util.Time.{Floats, max_unix_ts, to_text}
use push_anode.Util.Time.Laws.{IsExact, get_or_default-to_text, parse_unix_float_or_fail-millis}
use push_anode.Wire.{thrown, Libraries}
use push_anode.Wire.Jspb.{Jspb}
use push_anode.Archive.Database.{Database}
use push_anode.Queries.Recent.{SqlReads, last_item, push_get_transactions}
use push_anode.Queries.Recent.Stored.{Sent, shown}

-- The time of a block in milliseconds: after 11 January 1978, and exact in JavaScript.
abbrev pub IsLate : Sent → Type 0
IsLate s = (max_unix_ts < s.block_ts) × (s.block_ts < 2 ^ 53)

module _ (J : Jspb) (lib : Libraries) where
  last_of :
      (list : List Sent) (t : Text)
      → All IsLate list
      → last_item (map (shown J lib) list) ≡ some t
      → (n : ℕ) × (t ≡ to_text n) × (max_unix_ts < n) × (n < 2 ^ 53)
  last_of [] t late e = cc
  last_of (s ∷ []) t (late, none_left) e = (s.block_ts, cc e, late.0, late.1)
  last_of (s ∷ s' ∷ list) t (late, more) e = last_of (s' ∷ list) t more e

  module _ {D : Database} (Q : SqlReads D) (F : Floats) (d : D.Db) where
    -- A client that goes on from the `lastTs` of an answer gets no answer, but the exception that the
    -- time is too late, if the wallet that it names is a full CAIP address and the order is ASC, DESC
    -- or not given, whatever the category, where the blocks of the answer have a time in milliseconds
    -- after January 1978 and below 2 ^ 53, and parseFloat reads whole numbers exactly.
    pub push_get_transactions-last_ts :
        (now : ℕ) (wallet category : Text) (sort_by : Option Text) (list : List Sent) (t : Text)
        → IsExact F
        → All IsLate list
        → is_full_caip_address wallet ≡ true
        → (get_or_default sort_by (lit "DESC") == lit "ASC"
            || get_or_default sort_by (lit "DESC") == lit "DESC")
          ≡ true
        → last_item (map (shown J lib) list) ≡ some t
        → push_get_transactions Q F d now wallet category (some t) sort_by
          ≡ err (thrown (lit "timestamp must be less that year 99999"))
    unfolding push_get_transactions
    push_get_transactions-last_ts now wallet category sort_by list t exact late full order last =
        let (n, same, after, below) = last_of list t late last in
        rw
          (
            same,
            full,
            order,
            get_or_default-to_text n (to_text now),
            parse_unix_float_or_fail-millis F n exact after below,
          )
          refl
