-- ===== src/Tests/Replicate.antt =====
-- Examples for the handler of the AppendEntries response.
use raft_research.Prelude.{◌≡◌, ◌⊎◌, refl, true, arith}
use raft_research.Prelude.Int.{pos, ◌<ℤ◌, ◌≤ℤ◌}
use raft_research.Rpc.Messages.{AppendEntriesRes}
use raft_research.Raft.Node.{raft_get_log_term}
use raft_research.Raft.Replicate.{count_matches, record_match, handle_append_entries_response}
use raft_research.Raft.Replicate.Commit.{may_commit}
use raft_research.Raft.Replicate.Handle.{
  handle_append_entries_response-may_commit, handle_append_entries_response-newest,
}
use raft_research.Tests.Data.{a_leader}

-- Node 1 has the three entries.
abbrev matched : AppendEntriesRes
matched = record { term = 2; new_match_index = 2; success = 1 }

handle_append_entries_response-may_commit_example :
    let b = handle_append_entries_response 1 matched a_leader in
    (b.commit_index ≡ pos 0)
    ⊎ ((pos 0 <ℤ b.commit_index)
        × (b.commit_index <ℤ pos 3)
        × (may_commit 2 (record_match 1 2 a_leader) b.commit_index ≡ true))
handle_append_entries_response-may_commit_example =
    handle_append_entries_response-may_commit 1 matched a_leader refl refl refl

handle_append_entries_response-newest_example :
    pos 2 ≤ℤ (handle_append_entries_response 1 matched a_leader).commit_index
unfolding raft_get_log_term count_matches record_match
handle_append_entries_response-newest_example =
    handle_append_entries_response-newest 1 matched a_leader (pos 2) refl refl refl (omega arith)
      refl
