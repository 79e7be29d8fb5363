-- ===== src/Ws/Outbox.antt =====
-- What the write half of the client promises: an outbox of at most 1001 texts that are written one
-- after the other. It has no counters and no flags but the wish to close.
use ocppwo.Common.{Bool, true, List, [], ◌∷◌, ◌++◌, String, length, ltb, if◌then◌else◌}
use ocppwo.Ws.Machine.{
  Machine, Task, send, close, async_close, drop, Event, send_called, close_called, drop_called,
  task_runs, write_completes, close_completes, connect_completes, handshake_completes, read_fails,
  read_completes,
}

pub record Outbox : Type 0 where
  -- what the callers asked for, oldest first
  pub asked : List Task
  -- the texts taken in and not yet written; the first is being written
  pub waiting : List String
  -- no text is taken in any more
  pub shut : Bool
  -- the texts whose writing began, oldest first
  pub begun : List String

abbrev pub begin : List String → Outbox → Outbox
begin [] b = b
begin (text ∷ rest) b = record b { begun = b.begun ++ text ∷ [] }

-- A text is taken in, and its writing begins if nothing else is being written.
abbrev pub take_in : String → List String → Outbox → Outbox
take_in text [] b = record b { waiting = text ∷ []; begun = b.begun ++ text ∷ [] }
take_in text (x ∷ xs) b = record b { waiting = b.waiting ++ text ∷ [] }

abbrev pub serve : List Task → Outbox → Outbox
serve [] b = b
serve (send text ∷ rest) b =
    if b.shut
    then record b { asked = rest }
    else if ltb 1000 (length b.waiting)
    then record b { asked = rest }
    else take_in text b.waiting (record b { asked = rest })
serve (close ∷ rest) b = record b { asked = rest; shut = true }
serve (async_close ∷ rest) b = record b { asked = rest }
serve (drop graceful ∷ rest) b = record b { asked = rest }

-- The writing of the first text ends, and that of the next begins.
abbrev pub finish : List String → Outbox → Outbox
finish [] b = b
finish (text ∷ rest) b = begin rest (record b { waiting = rest })

abbrev pub follow : Outbox → Event → Outbox
follow b (send_called text) = record b { asked = b.asked ++ send text ∷ [] }
follow b close_called = record b { asked = b.asked ++ close ∷ [] }
follow b (drop_called graceful) = record b { asked = b.asked ++ drop graceful ∷ [] }
follow b task_runs = serve b.asked b
follow b write_completes = finish b.waiting b
follow b close_completes = b
follow b (connect_completes failed) = b
follow b (handshake_completes failed) = b
follow b read_fails = b
follow b (read_completes text) = b

abbrev pub follow_all : Outbox → List Event → Outbox
follow_all b [] = b
follow_all b (e ∷ es) = follow_all (follow b e) es

-- What the machine keeps, seen as an outbox.
abbrev pub outbox : {K : Type 0} → Machine K → Outbox
outbox m = record {
  asked = m.tasks;
  waiting = m.client.write_queue;
  shut = m.client.close_pending;
  begun = m.started;
}
