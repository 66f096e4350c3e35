-- ===== src/Store/Jobs/Lifecycle.antt =====
-- The times of a job's metrics under every sequence of the methods that write them.
use inst_video_downloader_tg.Base.{
  ℕ, ◌≡◌, refl, Option, some, List, [], ◌∷◌, String, arith, if◌then◌else◌, ◌==◌, ◌∙◌, coalesce,
  eq_iff, inl, inr, Bool-cases,
}
use inst_video_downloader_tg.Base.Int.{ℤ}
use inst_video_downloader_tg.Sql.{update}
use inst_video_downloader_tg.Sql.Laws.{fetch_one-update}
use inst_video_downloader_tg.Sql.Keys.{at, has, at-upsert, Keeps}
use inst_video_downloader_tg.Store.Jobs.Metrics.{
  MetricsRow, metrics_pk, Download, start_job_metrics, mark_job_metrics_started, record_cache_hit,
  record_download_metrics, record_delivery_metrics, finalize_job_metrics,
}

pub data Write : Type 0 where
  start : ℕ → String → ℤ → String → String → Write
  run_started : ℕ → String → Write
  hit : String → Write
  download : String → Download → Write
  deliver : String → ℕ → Option String → Option String → Write
  finalize : ℕ → String → String → Write

pub write : Write → List MetricsRow → List MetricsRow
write (start now id chat provider url) t = start_job_metrics now id chat provider url t
write (run_started now id) t = mark_job_metrics_started now id t
write (hit id) t = record_cache_hit id t
write (download id d) t = record_download_metrics id d t
write (deliver id duration status error) t = record_delivery_metrics id duration status error t
write (finalize now id status) t = finalize_job_metrics now id status t

pub write_all : List Write → List MetricsRow → List MetricsRow
write_all [] t = t
write_all (w ∷ ws) t = write_all ws (write w t)

-- The row of `id` is there, and it keeps the times that `m` has.
pub record Later (m : MetricsRow) (t : List MetricsRow) (id : String) : Type 0 where
  pub row : MetricsRow
  pub found : at metrics_pk t id ≡ some row
  pub created : row.created_at ≡ m.created_at
  pub started : coalesce m.started_at row.started_at ≡ row.started_at
  pub finished : coalesce m.finished_at row.finished_at ≡ row.finished_at

-- What a SET clause has to leave.
record Timely (m n : MetricsRow) : Type 0 where
  created : n.created_at ≡ m.created_at
  started : coalesce m.started_at n.started_at ≡ n.started_at
  finished : coalesce m.finished_at n.finished_at ≡ n.finished_at

Timely-refl : (m : MetricsRow) → Timely m m
Timely-refl m = ground arith

update-Later :
    (k id : String) (f : MetricsRow → MetricsRow) (m : MetricsRow) (t : List MetricsRow)
    → Keeps metrics_pk f
    → Timely m (f m)
    → at metrics_pk t id ≡ some m
    → Later m (update (has metrics_pk k) f t) id
update-Later k id f m t keep timely e = record {
  row = if has metrics_pk k m then f m else m;
  found =
      fetch_one-update (has metrics_pk id) (has metrics_pk k) f t (λ r. ground (arith, keep r))
      ∙ rw e refl;
  created = ground (arith, timely);
  started = ground (arith, timely, Timely-refl m);
  finished = ground (arith, timely, Timely-refl m);
}

start-Later :
    (now : ℕ) (k : String) (chat : ℤ) (provider url id : String) (m : MetricsRow)
    (t : List MetricsRow)
    → at metrics_pk t id ≡ some m
    → Later m (start_job_metrics now k chat provider url t) id
unfolding start_job_metrics
start-Later now k chat provider url id m t e = record {
  row =
      if k == id then record m { chat_id = chat; provider = provider; normalized_url = url } else m;
  found =
      at-upsert metrics_pk k id _
        (λ r. record r { chat_id = chat; provider = provider; normalized_url = url }) t (λ r. refl)
        refl
      ∙ elim (Bool-cases (k == id)) [
        | inl y ↦ rw (y, (eq_iff k id).0 y, e) refl
        | inr n ↦ rw (n, e) refl
      ];
  created = ground arith;
  started = ground arith;
  finished = ground arith;
}

write-Later :
    (w : Write) (m : MetricsRow) (t : List MetricsRow) (id : String)
    → at metrics_pk t id ≡ some m
    → Later m (write w t) id
unfolding write
write-Later (start now k chat provider url) m t id e = start-Later now k chat provider url id m t e
write-Later (run_started now k) m t id e =
    unfold mark_job_metrics_started in update-Later k id _ m t (λ r. refl) (ground arith) e
write-Later (hit k) m t id e =
    unfold record_cache_hit in update-Later k id _ m t (λ r. refl) (ground arith) e
write-Later (download k d) m t id e =
    unfold record_download_metrics in update-Later k id _ m t (λ r. refl) (ground arith) e
write-Later (deliver k duration status error) m t id e =
    unfold record_delivery_metrics in update-Later k id _ m t (λ r. refl) (ground arith) e
write-Later (finalize now k status) m t id e =
    unfold finalize_job_metrics in update-Later k id _ m t (λ r. refl) (ground arith) e

Later-trans :
    (m : MetricsRow) (t u : List MetricsRow) (id : String) (l : Later m t id)
    → Later l.row u id
    → Later m u id
Later-trans m t u id l k = record {
  row = k.row;
  found = k.found;
  created = ground (arith, l.created, k.created);
  started = ground (arith, l.started, k.started);
  finished = ground (arith, l.finished, k.finished);
}

-- Whatever is recorded afterwards, for this and other jobs, the metrics of a job stay, with their
-- creation time; the first start time and the first finish time that they get are kept.
pub write_all-Later :
    (ws : List Write) (m : MetricsRow) (t : List MetricsRow) (id : String)
    → at metrics_pk t id ≡ some m
    → Later m (write_all ws t) id
unfolding write_all
write_all-Later [] m t id e = record {
  row = m;
  found = e;
  created = refl;
  started = (Timely-refl m).started;
  finished = (Timely-refl m).finished;
}
write_all-Later (w ∷ ws) m t id e =
    let l = write-Later w m t id e in
    Later-trans m (write w t) (write_all ws (write w t)) id l
      (write_all-Later ws l.row (write w t) id l.found)
