-- ===== src/Conversation/Whole.antt =====
-- All calls of a session, to the server and back.
use ocppwo.Common.{◌≡◌, sym, ap, ◌∙◌, subst, none, List, [], ◌++◌, String, ok, All, lookup}
use ocppwo.Json.{JsonLib, JsonLaws}
use ocppwo.Router.Once.{DumpParses}
use ocppwo.Server.Answers.{IsComplete}
use ocppwo.Session.{Session}
use ocppwo.Session.Life.{deliveries}
use ocppwo.Conversation.{Request, send_all, serve_all, receive_all}
use ocppwo.Conversation.Requests.{
  HaveDistinctIds, IsForeign, IsPending, send_all_lem, enlisted-foreign, enlisted-IsPending,
}
use ocppwo.Conversation.Replies.{IsSettled, serve_all_lem, receive_all-foreign, receive_all-told}

module _ (J : JsonLib) ⦃L : JsonLaws J⦄ where
  -- If whatever is printed parses: a session sends calls under distinct ids that are not pending
  -- in it, the payloads complete where they are boot notifications. The server reads the frames in
  -- this order, and the session then gets the texts that the server posts, with nothing else in
  -- between. The server throws at none of the frames; every one of the calls is then no longer
  -- pending, and its callback was invoked exactly once, with a CallResult that holds what the
  -- server's handler gave for its payload. Under any other id the table is as before, and no
  -- callback was invoked.
  pub calls_answered :
      (total : DumpParses J) (qs : List Request) (s : Session) (log : List String) (k : String)
      → HaveDistinctIds qs
      → All (λ q. IsComplete q.payload) qs
      → All (λ q. lookup q.id s.pending ≡ none) qs
      → IsForeign k qs
      → let (sent, frames) = send_all J qs s in
        (texts : List String) × (serve_all J frames log ≡ (ok tt, log ++ texts))
        × All (IsSettled J (receive_all J texts sent)) qs
        × (lookup k (receive_all J texts sent).0.pending ≡ lookup k s.pending)
        × (deliveries k (receive_all J texts sent).1 ≡ [])
  calls_answered total qs s log k d c u f =
      let (kept, frames) = send_all_lem J total qs s in
      let (texts, replies, e) = serve_all_lem J total qs log c in
      let sent = (send_all J qs s).0 in
      let waiting =
        subst (λ m. All (IsPending m) qs) (sym kept) (enlisted-IsPending qs s.pending u d) in
      let (same, silent) = receive_all-foreign J qs texts sent k replies waiting d f in
      (
        texts,
        ap (λ fs. serve_all J fs log) frames ∙ e,
        receive_all-told J qs texts sent replies waiting d,
        same ∙ ap (lookup k) kept ∙ enlisted-foreign k qs s.pending f u d,
        silent,
      )
