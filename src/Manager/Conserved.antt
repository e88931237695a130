-- ===== src/Manager/Conserved.antt =====
-- Every run of the threads that submit tasks to src/task/manager.rs, and of the executors.
use hooch.SyncChannel.{SyncChannel}
use hooch.DashMap.{DashMap}
use hooch.Task.{Task}
use hooch.Manager.Crowd.{Crowd}
use hooch.Manager.Waits.{Waits}
