-- ===== src/Task.antt =====
-- src/task/task.rs, the task itself. Its future stands in src/executor.rs's model.
use hooch.Base.{ℕ, ◌+◌, ◌%◌, Bool, usize_size}

-- `future` and `abort` are the addresses of the shared cells behind the struct's `Mutex` and `Arc`.
pub record Task : Type 0 where
  pub future : ℕ
  pub task_tag : ℕ
  pub abort : ℕ

-- `aborts` is what the shared `AtomicBool`s hold.
unfoldable pub has_aborted : (ℕ → Bool) → Task → Bool
has_aborted aborts t = aborts t.abort

-- `Task::generate_tag`, with the counter TASK_TAG_NUM: the tag, and the counter afterwards.
unfoldable pub generate_tag : ℕ → ℕ × ℕ
generate_tag task_tag_num = (task_tag_num, (task_tag_num + 1) % usize_size)
