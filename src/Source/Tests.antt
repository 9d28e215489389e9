-- ===== src/Source/Tests.antt =====
-- A source with two parent tasks of one job.
use rlink_rs.Prelude.{ℕ, ◌+◌, ◌-◌, ◌≡◌, refl, true, Option, none, some, List, [], ◌∷◌}
use rlink_rs.Core.{
  TaskId, Element, data_record, stream_status, barrier, new_barrier, default_channel_key,
  default_task_id,
}
use rlink_rs.Source.{SourceRunnable, Output, open_source, run}
use rlink_rs.Source.Flow.{run_from_open, sent_records, records, reports, ends}

abbrev task : ℕ → TaskId
task n = record { job_id = 1; task_number = n; num_tasks = 2 }

abbrev parents : List TaskId
parents = task 0 ∷ task 1 ∷ []

abbrev row : ℕ → Element ℕ
row n = data_record (record {
  partition_num = 0;
  timestamp = n;
  channel_key = default_channel_key;
  location_windows = none;
  trigger_window = none;
  values = n;
})

abbrev end_from : ℕ → Element ℕ
end_from n = stream_status (record {
  partition_num = 0;
  timestamp = 50;
  channel_key = record { source_task_id = task n; target_task_id = default_task_id };
  end = true;
})

abbrev input : List (Element ℕ)
input =
    row 1
    ∷ barrier (new_barrier 20)
    ∷ end_from 0
    ∷ row 2
    ∷ barrier (new_barrier 20)
    ∷ end_from 1
    ∷ []

abbrev state_or : SourceRunnable → Option SourceRunnable → SourceRunnable
state_or s none = s
state_or s (some t) = t

abbrev opened : SourceRunnable
opened =
    state_or
      (record {
        waiting_end_flags = 1;
        end_flags = 0;
        barrier_alignment = record { parent_execution_size = 0; batch_id = 0; reached_size = 0 };
        stream_status_alignment = record {
          parent_execution_size = 0;
          batch_id = 0;
          reached_size = 0;
        };
        watermark_manager = record { reached_watermarks = [] };
        counter = 0;
      })
      (open_source parents)

abbrev outputs_of : Option (SourceRunnable × List (Output ℕ)) → List (Output ℕ)
outputs_of none = []
outputs_of (some (s, outs)) = outs

abbrev state_of : Option (SourceRunnable × List (Output ℕ)) → SourceRunnable
state_of none = opened
state_of (some (s, outs)) = s

-- Both ends are seen, so the end is reported once; the records come out in order.
reports_once : reports (outputs_of (run opened input)) ≡ 1
unfolding run open_source
reports_once = refl

run_from_open_example :
    (sent_records (outputs_of (run opened input)) ≡ records input)
    × (reports (outputs_of (run opened input)) ≡ ends input + 1 - 2)
unfolding run open_source
run_from_open_example =
    run_from_open parents opened (state_of (run opened input)) input (outputs_of (run opened input))
      refl refl
