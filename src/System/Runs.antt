-- ===== src/System/Runs.antt =====
-- What becomes of a user's connection under any operations.
use authlane.Prelude.{◌≡◌, refl, sym, true, List, []}
use authlane.Store.Tables.{Connection}
use authlane.Flow.Types.{FlowState}
use authlane.Flow.Binding.{distinct_ids}
use authlane.System.Life.{User, life, Operation, Move, Moves, IsSound, Moves-IsSound}
use authlane.System.Moves.{mark_expired_connections-Move, refresh_token-Move, callback-Move}
use authlane.System.Requests.{
  authorize-Move, connect_api_key-Move, disconnect-Move, invalidate-Move,
}
use authlane.System.Steps.{
  Step, authorizes, uses_key, redeems, disconnects, invalidates, expires, renews, Run, here, then,
  invalidated,
}
use authlane.System.Distinct.{Step-distinct}

Step-Move :
    {S : Type 0} (user : User) (op : Operation) (st : FlowState S) (after : List Connection)
    → Step op st after
    → distinct_ids st.connections ≡ true
    → Move user op (life user st.connections) (life user after)
Step-Move user op st after (authorizes env request fresh e o) d =
    rw (o, sym e) (authorize-Move env user request st)
Step-Move user op st after (uses_key env request fresh e o) d =
    rw (o, sym e) (connect_api_key-Move env user request st)
Step-Move user op st after (redeems env query quiet e o) d =
    rw (o, sym e) (callback-Move user env query st quiet d)
Step-Move user op st after (disconnects env request e o) d =
    rw (o, sym e) (disconnect-Move env user request st)
Step-Move user op st after (invalidates env organization_id service_id code n final h e o) d =
    rw (o, sym e, sym (invalidated env organization_id service_id code n st final h))
      (invalidate-Move user organization_id service_id code env.later st.connections)
Step-Move user op st after (expires supply now e o) d =
    rw (o, sym e) (mark_expired_connections-Move user supply now st.connections st.events)
Step-Move user op st after (renews env data' quiet calm e o) d =
    rw (o, sym e) (refresh_token-Move user env data' _ quiet calm)

-- Under any operations, the life of every user's connection is changed by those alone that are about
-- it, in the way of their moves: by a request, only of a session of this user for this service; by a
-- callback or a refresh, only of the connection that it names; by a loss, only for its organization
-- and service. And identifiers stay distinct.
pub Run-Moves :
    {S : Type 0} {start : List Connection} {ops : List Operation} {after : List Connection}
    (user : User)
    → Run S start ops after
    → distinct_ids start ≡ true
    → (distinct_ids after ≡ true) × Moves user (life user start) ops (life user after)
Run-Moves user here d = (d, Moves.here)
Run-Moves {S} {start} {ops} {after} user (then op st run step) d =
    let r = Run-Moves user run d in
    (Step-distinct op st after step r.0, Moves.then op r.1 (Step-Move user op st after step r.0))

-- Whatever operations follow each other on a table that was empty, the connection of a user to a
-- service has credentials whenever its status is `connected`.
pub Run-IsSound :
    {S : Type 0} (ops : List Operation) (after : List Connection) (user : User)
    → Run S [] ops after
    → IsSound (life user after)
Run-IsSound ops after user run = Moves-IsSound (Run-Moves user run refl).1 tt
