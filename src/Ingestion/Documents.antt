-- ===== src/Ingestion/Documents.antt =====
-- MemoryDocumentRepository (gateway-go/internal/ingestion/memory_repository.go).
use financial_ai_platform.Prelude.{List, none, some, Text, get, put, values, Result, ok, err}
use financial_ai_platform.Ingestion.Records.{
  Document, RepositoryError, document_not_found, MemoryDocumentRepository, or_document,
}

unfoldable pub create : MemoryDocumentRepository → Document → MemoryDocumentRepository
create r doc = record {
  by_id = put r.by_id doc.id doc;
  by_hash = put r.by_hash doc.content_hash doc.id;
}

unfoldable pub find_by_id : MemoryDocumentRepository → Text → Result RepositoryError Document
find_by_id r id = elim (get r.by_id id) [ none ↦ err document_not_found | some doc ↦ ok doc ]

unfoldable pub find_by_content_hash :
    MemoryDocumentRepository → Text → Result RepositoryError Document
find_by_content_hash r hash = elim (get r.by_hash hash) [
  | none ↦ err document_not_found
  | some id ↦ ok (or_document (get r.by_id id))
]

unfoldable pub list_all : MemoryDocumentRepository → List Document
list_all r = values r.by_id
